-- ===== src/Capability/Slots.antt =====
-- What the stores of kernel/capability.c do to the slots, the objects and the registry.
use jcos.Prelude.{
  ℕ, zero, suc, ◌+◌, ◌<◌, ◌≡◌, ◌≢◌, refl, ◌∙◌, Bool, true, false, ◌&&◌, some, arith, ◌==◌,
  if◌then◌else◌, add64, sub64, inl, inr, Bool-cases, Option-cases, some_inj, sym, u64_max,
}
use jcos.Kernel.{
  Kernel, CapabilitySlot, CapabilityType, type_none, type_eq, update, object_identity, refs_of,
  set_refs,
}
use jcos.Capability.Handles.{issued_form}
use jcos.Kernel.Refs.{
  refs_of-set_refs, object_identity-set_refs, identity-with_tables, refs-with_tables,
  tables-set_refs,
}
use jcos.Capability.{
  slot_at, empty_slot, grant_slot, delete_slot, insert_loop, take_generation, make_handle,
  type_valid, table_valid, has_unknown_rights, capability_insert,
}

module _ (k : Kernel) (table i : ℕ) (slot : CapabilitySlot) (next : ℕ) where
  abbrev granted : Kernel
  granted = grant_slot k table i slot next

  pub slot_at-grant :
      (t j : ℕ) → slot_at granted t j ≡ (if (table == t) && (i == j) then slot else slot_at k t j)
  unfolding grant_slot
  slot_at-grant t j =
      ground
        (arith, tables-set_refs k slot.type slot.object (add64 (refs_of k slot.type slot.object) 1))

  pub slots-grant :
      (t : ℕ)
      → (granted.tables t).slots
        ≡ (if table == t then update (k.tables table).slots i slot else (k.tables t).slots)
  unfolding grant_slot
  slots-grant t =
      ground
        (arith, tables-set_refs k slot.type slot.object (add64 (refs_of k slot.type slot.object) 1))

  pub grant_keeps :
      (granted.table_storage ≡ k.table_storage)
      × (granted.next_generation ≡ update k.next_generation i next)
      × (granted.issuers_initialized ≡ k.issuers_initialized)
  unfolding grant_slot
  grant_keeps =
      let (a, b, c, d) =
        tables-set_refs k slot.type slot.object (add64 (refs_of k slot.type slot.object) 1) in
      (b, refl, d)

  pub initialized-grant : (t : ℕ) → (granted.tables t).initialized ≡ (k.tables t).initialized
  unfolding grant_slot
  initialized-grant t =
      ground
        (arith, tables-set_refs k slot.type slot.object (add64 (refs_of k slot.type slot.object) 1))

  pub identity-grant :
      (o : ℕ) (u : CapabilityType) (inserting : Bool)
      → object_identity granted o u inserting ≡ object_identity k o u inserting
  unfolding grant_slot
  identity-grant o u inserting =
      identity-with_tables
        (set_refs k slot.type slot.object (add64 (refs_of k slot.type slot.object) 1)) _ _ _ _ o u
        inserting
      ∙ object_identity-set_refs k slot.type u slot.object o
          (add64 (refs_of k slot.type slot.object) 1) inserting

  pub refs-grant :
      (u : CapabilityType) (o : ℕ)
      → slot.type ≢ type_none
      → refs_of granted u o ≡ (
          if type_eq slot.type u && (slot.object == o)
          then add64 (refs_of k slot.type slot.object) 1
          else refs_of k u o)
  unfolding grant_slot
  refs-grant u o h =
      refs-with_tables
        (set_refs k slot.type slot.object (add64 (refs_of k slot.type slot.object) 1)) _ _ _ _ u o
      ∙ refs_of-set_refs k slot.type u slot.object o _ h

-- The slot that `delete_slot` leaves.
abbrev pub freed : CapabilitySlot → CapabilitySlot
freed slot = record empty_slot { generation = slot.generation }

module _ (k : Kernel) (table i : ℕ) where
  abbrev old_slot : CapabilitySlot
  old_slot = slot_at k table i

  abbrev less : ℕ
  less = sub64 (refs_of k old_slot.type old_slot.object) 1

  pub slot_at-delete :
      (t j : ℕ)
      → slot_at (delete_slot k table i) t j
        ≡ (if (table == t) && (i == j) then freed old_slot else slot_at k t j)
  unfolding delete_slot
  slot_at-delete t j = ground (arith, tables-set_refs k old_slot.type old_slot.object less)

  pub slots-delete :
      (t : ℕ)
      → ((delete_slot k table i).tables t).slots ≡ (
          if table == t
          then update (k.tables table).slots i (freed old_slot)
          else (k.tables t).slots)
  unfolding delete_slot
  slots-delete t = ground (arith, tables-set_refs k old_slot.type old_slot.object less)

  pub delete_keeps :
      ((delete_slot k table i).table_storage ≡ k.table_storage)
      × ((delete_slot k table i).next_generation ≡ k.next_generation)
      × ((delete_slot k table i).issuers_initialized ≡ k.issuers_initialized)
  unfolding delete_slot
  delete_keeps =
      let (a, b, c, d) = tables-set_refs k old_slot.type old_slot.object less in (b, c, d)

  pub initialized-delete :
      (t : ℕ) → ((delete_slot k table i).tables t).initialized ≡ (k.tables t).initialized
  unfolding delete_slot
  initialized-delete t = ground (arith, tables-set_refs k old_slot.type old_slot.object less)

  pub identity-delete :
      (o : ℕ) (u : CapabilityType) (inserting : Bool)
      → object_identity (delete_slot k table i) o u inserting ≡ object_identity k o u inserting
  unfolding delete_slot
  identity-delete o u inserting =
      identity-with_tables (set_refs k old_slot.type old_slot.object less) _ _ _ _ o u inserting
      ∙ object_identity-set_refs k old_slot.type u old_slot.object o less inserting

  pub refs-delete :
      (u : CapabilityType) (o : ℕ)
      → old_slot.type ≢ type_none
      → refs_of (delete_slot k table i) u o
        ≡ (if type_eq old_slot.type u && (old_slot.object == o) then less else refs_of k u o)
  unfolding delete_slot
  refs-delete u o h =
      refs-with_tables (set_refs k old_slot.type old_slot.object less) _ _ _ _ u o
      ∙ refs_of-set_refs k old_slot.type u old_slot.object o less h

-- The slot that `capability_insert` writes.
abbrev pub grant_of :
    (object identity : ℕ) → CapabilityType → (rights generation : ℕ) → CapabilitySlot
grant_of object identity type rights generation = record {
  object = object;
  object_id = identity;
  rights = rights;
  generation = generation;
  type = type;
  occupied = true;
}

-- A successful insertion: the free slot it took, and the issuer's value that became the generation.
pub record Inserted (k : Kernel) (table object : ℕ) (type : CapabilityType) (rights : ℕ)
    (r : Kernel × ℕ) : Type 0 where
  pub index : ℕ
  pub identity : ℕ
  pub in_table : index < 64
  pub was_free : (slot_at k table index).occupied ≡ false
  pub issued :
      take_generation (k.next_generation index)
      ≡ some (k.next_generation index + 1, k.next_generation index)
  pub returns : r ≡ (
    grant_slot k table index
        (grant_of object identity type rights (k.next_generation index))
        (k.next_generation index + 1),
    make_handle (k.next_generation index) index,
  )

module _ (k : Kernel) (table object identity : ℕ) (type : CapabilityType) (rights : ℕ) where
  insert_here :
      (left i : ℕ)
      → (slot_at k table i).occupied ≡ false
      → take_generation (k.next_generation i) ≡ some (k.next_generation i + 1, k.next_generation i)
      → insert_loop k table object identity type rights (suc left) i
        ≡ some (
          grant_slot k table i
              (grant_of object identity type rights (k.next_generation i))
              (k.next_generation i + 1),
          make_handle (k.next_generation i) i,
        )
  unfolding insert_loop
  insert_here left i free issued = rw (free, issued)

  pub insert_loop_inv :
      (left i : ℕ) {r : Kernel × ℕ}
      → i + left ≡ 64
      → insert_loop k table object identity type rights left i ≡ some r
      → (s : Inserted k table object type rights r) × (s.identity ≡ identity)
  unfolding insert_loop
  insert_loop_inv zero i b e = cc
  insert_loop_inv (suc left) i {r} b e = elim (Bool-cases ((slot_at k table i).occupied)) [
    | inl used ↦ insert_loop_inv left (i + 1) (omega arith) (rw used at e)
    | inr free ↦ elim (Option-cases (take_generation (k.next_generation i))) [
      | inl exhausted ↦ insert_loop_inv left (i + 1) (omega arith) (rw (free, exhausted) at e)
      | inr (grant, issued) ↦
          let issued' = issued_form (k.next_generation i) grant issued in
          (
            record {
              index = i;
              identity = identity;
              in_table = omega arith;
              was_free = free;
              issued = issued';
              returns = some_inj (sym e ∙ insert_here left i free issued');
            },
            refl,
          )
    ]
  ]

-- A successful call of `capability_insert`, taken apart.
pub record Granted (k : Kernel) (table object : ℕ) (type : CapabilityType) (rights : ℕ)
    (r : Kernel × ℕ) : Type 0 where
  pub done : Inserted k table object type rights r
  pub open done use *
  pub valid : table_valid k table ≡ true
  pub typed : type_valid type ≡ true
  pub some_rights : 0 < rights
  pub known_rights : has_unknown_rights rights ≡ false
  pub names : object_identity k object type true ≡ some done.identity
  pub room : refs_of k type object ≢ u64_max

insert_checks :
    (k : Kernel) (table object : ℕ) (type : CapabilityType) (rights : ℕ) (r : Kernel × ℕ)
    → capability_insert k table object type rights ≡ some r
    → (table_valid k table ≡ true)
      × (type_valid type ≡ true)
      × (0 < rights)
      × (has_unknown_rights rights ≡ false)
      × (refs_of k type object ≢ u64_max)
      × ((identity : ℕ) × (object_identity k object type true ≡ some identity)
          × (insert_loop k table object identity type rights 64 0 ≡ some r))
unfolding capability_insert
insert_checks k table object type rights r e =
    elim (Option-cases (object_identity k object type true)) [
      | inl missing ↦ absurd (ground arith)
      | inr (identity, names) ↦ (
        ground arith,
        ground arith,
        ground arith,
        ground arith,
        ground arith,
        (identity, names, ground arith),
      )
    ]

pub capability_insert-Granted :
    (k : Kernel) (table object : ℕ) (type : CapabilityType) (rights : ℕ) {r : Kernel × ℕ}
    → capability_insert k table object type rights ≡ some r
    → Granted k table object type rights r
capability_insert-Granted k table object type rights {r} e =
    let (valid, typed, some_rights, known, room, named) =
      insert_checks k table object type rights r e in
    let (identity, names, loop) = named in
    let (s, same) = insert_loop_inv k table object identity type rights 64 0 (omega arith) loop in
    record {
      done = s;
      valid = valid;
      typed = typed;
      some_rights = some_rights;
      known_rights = known;
      names = rw same names;
      room = room;
    }
