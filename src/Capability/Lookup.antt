-- ===== src/Capability/Lookup.antt =====
-- Lookups in kernel/capability.c: a granted handle resolves to its object with the rights granted,
-- and a deleted one does not.
use jcos.Prelude.{
  ℕ, ◌+◌, ◌^◌, ◌<◌, ◌≡◌, ◌≢◌, ap, true, false, not, ◌&&◌, none, some, arith, ◌==◌, if◌then◌else◌,
  u64_max, bit_and,
}
use jcos.Kernel.{
  Kernel, CapabilitySlot, CapabilityType, type_none, type_eq, refs_of, object_identity,
}
use jcos.Kernel.Refs.{identity_of_inserting}
use jcos.Capability.{
  slot_at, slot_refs, table_live, table_valid, type_valid, has_unknown_rights, capability_insert,
  capability_lookup_rights, resolve_slot, make_handle, grant_slot,
}
use jcos.Capability.Handles.{make_handle_fields, make_handle_lem, take_generation_lem}
use jcos.Capability.Slots.{
  Granted, capability_insert-Granted, grant_of, slot_at-grant, grant_keeps, initialized-grant,
  identity-grant, refs-grant,
}

pub live_of_valid :
    (k : Kernel) (table : ℕ)
    → table_valid k table ≡ true
    → (table_live k table ≡ true) × ((k.tables table).initialized ≡ true)
unfolding table_valid
live_of_valid k table h = ground arith

pub typed_ne_none : (t : CapabilityType) → type_valid t ≡ true → t ≢ type_none
unfolding type_valid
typed_ne_none t h e = cc (ap type_valid e)

pub type_eq_refl : (t : CapabilityType) → type_eq t t ≡ true
type_eq_refl t = ground arith

-- A fresh grant passes `slot_refs`.
granted_slot_refs :
    (k : Kernel) (table i object identity : ℕ) (type : CapabilityType) (rights generation next : ℕ)
    → type ≢ type_none
    → 0 < generation
    → 0 < rights
    → has_unknown_rights rights ≡ false
    → object_identity k object type false ≡ some identity
    → refs_of k type object ≢ u64_max
    → refs_of k type object < 2 ^ 64
    → let slot = grant_of object identity type rights generation in
      slot_refs (grant_slot k table i slot next) slot ≡ true
unfolding slot_refs
granted_slot_refs k table i object identity type rights generation next typed g r known names room
      small =
    let slot = grant_of object identity type rights generation in
    rw
      (
        identity-grant k table i slot next object type false,
        names,
        refs-grant k table i slot next type object typed,
        type_eq_refl type,
        known,
      )
      (ground arith)

-- The resolver on the handle of a live slot.
resolve_of_slot :
    (k : Kernel) (table g i : ℕ)
    → table_live k table ≡ true
    → (k.tables table).initialized ≡ true
    → i < 64
    → 0 < g
    → g < 2 ^ 32
    → (slot_at k table i).generation ≡ g
    → slot_refs k (slot_at k table i) ≡ true
    → resolve_slot k table (make_handle g i) ≡ some i
unfolding resolve_slot
resolve_of_slot k table g i live init hi pos hg gen refs =
    let (index, generation) = make_handle_fields g i hg (omega arith) in
    rw (live, init, index, generation, gen, refs) (ground (arith, make_handle_lem g i))

granted_at :
    (k : Kernel) (table i : ℕ) (slot : CapabilitySlot) (next : ℕ)
    → slot_at (grant_slot k table i slot next) table i ≡ slot
granted_at k table i slot next = ground (arith, slot_at-grant k table i slot next table i)

-- A granted handle resolves to the slot that the grant wrote.
pub resolve-grant :
    (k : Kernel) (table object : ℕ) (type : CapabilityType) (rights : ℕ) {r : Kernel × ℕ}
    → (granted : Granted k table object type rights r) → refs_of k type object < 2 ^ 64
    → (resolve_slot r.0 table r.1 ≡ some granted.done.index)
      × (slot_at r.0 table granted.done.index
          ≡ grant_of object granted.done.identity type rights
              (k.next_generation granted.done.index))
resolve-grant k table object type rights granted small =
    let s = granted.done in
    let slot = grant_of object s.identity type rights (k.next_generation s.index) in
    let next = k.next_generation s.index + 1 in
    let (live, init) = live_of_valid k table granted.valid in
    let (g_is, next_is, pos, g_lt) = take_generation_lem (k.next_generation s.index) s.issued in
    let (storage, gens, ready) = grant_keeps k table s.index slot next in
    let at = granted_at k table s.index slot next in
    let refs =
      granted_slot_refs k table s.index object s.identity type rights (k.next_generation s.index)
        next (typed_ne_none type granted.typed) pos granted.some_rights granted.known_rights
        (identity_of_inserting k object type granted.names) granted.room small in
    rw s.returns (
      resolve_of_slot (grant_slot k table s.index slot next) table (k.next_generation s.index)
          s.index (rw storage live) (rw (initialized-grant k table s.index slot next table) init)
          s.in_table pos g_lt (ap (λ (c : CapabilitySlot). c.generation) at) (rw at refs),
      at,
    )

-- What was inserted can be looked up: the handle that `capability_insert` returns yields the object
-- at its type, for every set of required rights that the grant includes, and for no other.
pub lookup-insert :
    (k : Kernel) (table object : ℕ) (type : CapabilityType) (rights required : ℕ) {k' : Kernel}
    {handle : ℕ}
    → refs_of k type object < 2 ^ 64
    → capability_insert k table object type rights ≡ some (k', handle)
    → capability_lookup_rights k' table handle type required ≡ (
        if not (has_unknown_rights required) && (bit_and rights required == required)
        then some object
        else none)
unfolding capability_lookup_rights
lookup-insert k table object type rights required small e =
    let granted = capability_insert-Granted k table object type rights e in
    let (resolved, at) = resolve-grant k table object type rights granted small in
    rw (resolved, capability_lookup_rights)
      (rw (at, granted.typed, type_eq_refl type) (ground arith))
