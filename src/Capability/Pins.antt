-- ===== src/Capability/Pins.antt =====
-- The reference counts of kernel/capability.c: an object's count is the number of occupied slots of
-- live tables that name it, whatever the history.
use jcos.Prelude.{
  ℕ, ◌+◌, ◌≤◌, ◌<◌, ◌≡◌, ◌≢◌, sym, ap, true, ◌&&◌, arith, ◌==◌, if◌then◌else◌, Bool-cases, inl, inr,
  length,
}
use jcos.ObjectStorage.{occurrences, live-occurs, null_not_live}
use jcos.Kernel.{Kernel, CapabilitySlot, CapabilityType, type_none, refs_of, update}
use jcos.Capability.{slot_at, table_live, grant_slot, delete_slot}
use jcos.Capability.Slots.{
  grant_of, freed, slot_at-grant, grant_keeps, refs-grant, slot_at-delete, delete_keeps,
  refs-delete, slots-grant, slots-delete,
}
use jcos.Capability.Lookup.{type_eq_refl, typed_ne_none}
use jcos.Capability.Weights.{
  pins_pos, weight_ge, pin, pins, pins-le, pins-update, weight, weight-le, weight_once,
}
use jcos.Capability.Calls.{Writable}

-- The slots of live tables that hold a reference to the object.
unfoldable pub held : Kernel → CapabilityType → ℕ → ℕ
held k u o = weight (λ t. pins (k.tables t).slots u o 64) k.table_storage

pub record IsPinned (k : Kernel) : Type 0 where
  pub counted : (u : CapabilityType) (o : ℕ) → u ≢ type_none → refs_of k u o ≡ held k u o
  pub once : (t : ℕ) → t ≢ 0 → occurrences k.table_storage t ≤ 1
  pub registry : length k.table_storage ≤ 256
  pub typed :
      (t i : ℕ)
      → table_live k t ≡ true
      → i < 64
      → (slot_at k t i).occupied ≡ true
      → (slot_at k t i).type ≢ type_none

pub live_ne_zero : (k : Kernel) (t : ℕ) → table_live k t ≡ true → t ≢ 0
live_ne_zero k t l e = cc (rw e at l, null_not_live k.table_storage)

pub live_once :
    (k : Kernel) (t : ℕ) → IsPinned k → table_live k t ≡ true → occurrences k.table_storage t ≡ 1
live_once k t p l =
    let nz = live_ne_zero k t l in ground (arith, live-occurs k.table_storage t nz, p.once t nz)

held_small : (k : Kernel) (u : CapabilityType) (o : ℕ) → IsPinned k → held k u o ≤ 16384
unfolding held
held_small k u o p = omega (
  arith,
  weight-le (λ t. pins (k.tables t).slots u o 64) 64 k.table_storage
      (λ t. pins-le (k.tables t).slots u o 64),
  p.registry,
)

-- A write of one slot of a live table moves the count by what the slot pinned and pins.
module _ (k k' : Kernel) (table i : ℕ) (slot : CapabilitySlot) (u : CapabilityType) (o : ℕ) where
  held-write :
      IsPinned k
      → table_live k table ≡ true
      → i < 64
      → k'.table_storage ≡ k.table_storage
      → ((t : ℕ)
          → (k'.tables t).slots
            ≡ (if table == t then update (k.tables table).slots i slot else (k.tables t).slots))
      → held k' u o + pin (slot_at k table i) u o ≡ held k u o + pin slot u o
  unfolding held
  held-write p l b storage slots =
      let w : ℕ → ℕ = λ t. pins (k.tables t).slots u o 64 in
      let x : ℕ → ℕ = λ t. pins (k'.tables t).slots u o 64 in
      let here : (k'.tables table).slots ≡ update (k.tables table).slots i slot =
        ground (arith, slots table) in
      let there : (a : ℕ) → a ≢ table → w a ≡ x a =
        λ a ne. ap (λ (f : ℕ → CapabilitySlot). pins f u o 64) (sym (ground (arith, slots a))) in
      let moved =
        weight_once w x table k.table_storage there (live_ne_zero k table l)
          (live_once k table p l) in
      let at : x table ≡ pins (update (k.tables table).slots i slot) u o 64 =
        ap (λ (f : ℕ → CapabilitySlot). pins f u o 64) here in
      rw storage (omega (arith, moved, at, pins-update (k.tables table).slots u o 64 i slot b))

pub grant-IsPinned :
    (k : Kernel) (table i object identity : ℕ) (type : CapabilityType) (rights : ℕ)
    → IsPinned k
    → Writable k table i type
    → IsPinned (
        grant_slot k table i
          (grant_of object identity type rights (k.next_generation i))
          (k.next_generation i + 1))
grant-IsPinned k table i object identity type rights p w =
    let slot = grant_of object identity type rights (k.next_generation i) in
    let next = k.next_generation i + 1 in
    let k' = grant_slot k table i slot next in
    let (storage, gens, ready) = grant_keeps k table i slot next in
    let typed = typed_ne_none type w.typed in
    record {
      counted = λ u o nu. ground (
        arith,
        held-write k k' table i slot u o p w.live w.in_table storage
            (slots-grant k table i slot next),
        refs-grant k table i slot next u o typed,
        w.was_free,
        p.counted u o nu,
        held_small k u o p,
      );
      once = rw storage p.once;
      registry = rw storage p.registry;
      typed = λ t j l b occ. elim (Bool-cases ((table == t) && (i == j))) [
        | inl here ↦ rw (slot_at-grant k table i slot next t j, here) typed
        | inr there ↦
            rw (slot_at-grant k table i slot next t j, there)
              (p.typed t j (rw storage at l) b
                (rw (slot_at-grant k table i slot next t j, there) at occ))
      ];
    }

pub delete-IsPinned :
    (k : Kernel) (table i : ℕ)
    → IsPinned k
    → table_live k table ≡ true
    → i < 64
    → (slot_at k table i).occupied ≡ true
    → IsPinned (delete_slot k table i)
delete-IsPinned k table i p live b occupied =
    let slot = freed (slot_at k table i) in
    let k' = delete_slot k table i in
    let (storage, gens, ready) = delete_keeps k table i in
    let typed = p.typed table i live b occupied in
    record {
      counted = λ u o nu. ground (
        arith,
        held-write k k' table i slot u o p live b storage (slots-delete k table i),
        refs-delete k table i u o typed,
        occupied,
        p.counted u o nu,
        held_small k u o p,
      );
      once = rw storage p.once;
      registry = rw storage p.registry;
      typed = λ t j l h occ. elim (Bool-cases ((table == t) && (i == j))) [
        | inl here ↦ absurd (ground (arith, slot_at-delete k table i t j))
        | inr there ↦
            rw (slot_at-delete k table i t j, there)
              (p.typed t j (rw storage at l) h (rw (slot_at-delete k table i t j, there) at occ))
      ];
    }

-- A capability in a live table shows in the count of its object.
pub capability_counts :
    (k : Kernel) (t i : ℕ) (u : CapabilityType) (o : ℕ)
    → IsPinned k
    → table_live k t ≡ true
    → i < 64
    → (slot_at k t i).occupied ≡ true
    → (slot_at k t i).type ≡ u
    → (slot_at k t i).object ≡ o
    → u ≢ type_none
    → 0 < refs_of k u o
unfolding held
capability_counts k t i u o p live b occ typed object nu =
    let one : pin (slot_at k t i) u o ≡ 1 =
      rw (occ, typed, object, type_eq_refl u) (ground arith) in
    omega (
      arith,
      p.counted u o nu,
      one,
      pins_pos (k.tables t).slots u o 64 i b,
      weight_ge (λ a. pins (k.tables a).slots u o 64) t k.table_storage (live_ne_zero k t live)
          (omega (arith, live_once k t p live)),
    )
