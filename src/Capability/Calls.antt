-- ===== src/Capability/Calls.antt =====
-- Histories of calls of kernel/capability.c, and the four stores that every history is made of.
use jcos.Prelude.{
  ℕ, zero, suc, ◌+◌, ◌≡◌, ◌<◌, refl, ap, Bool, true, false, ◌&&◌, Option, none, some, List, [], ◌∷◌,
  arith, ◌==◌, nonzero, Bool-cases, Option-cases, if_both, inl, inr,
}
use jcos.Kernel.{Kernel, CapabilityType, type_none}
use jcos.Capability.{
  slot_at, slot_refs, table_live, table_valid, type_valid, capability_table_init,
  capability_table_destroy, capability_insert, capability_revoke, capability_revoke_all,
  capability_revoke_object, resolve_slot, grant_slot, delete_slot, delete_selected, delete_loop,
  selected, can_install, install_table, remove_table,
}
use jcos.Capability.Lookup.{live_of_valid}
use jcos.Capability.Slots.{capability_insert-Granted, grant_of, delete_keeps}

-- One call of an entry that changes capability state.
pub data Call : Type 0 where
  inits destroys revokes_all : ℕ → Call
  inserts : (table object : ℕ) → CapabilityType → (rights : ℕ) → Call
  revokes : (table handle : ℕ) → Call
  revokes_object : (table object : ℕ) → CapabilityType → Call

abbrev pub after_insert : Kernel → Option (Kernel × ℕ) → Kernel
after_insert k none = k
after_insert k (some (k', handle)) = k'

unfoldable pub step : Kernel → Call → Kernel
step k (inits table) = (capability_table_init k table).0
step k (destroys table) = (capability_table_destroy k table).0
step k (revokes_all table) = (capability_revoke_all k table).0
step k (inserts table object type rights) =
    after_insert k (capability_insert k table object type rights)
step k (revokes table handle) = (capability_revoke k table handle).0
step k (revokes_object table object type) = (capability_revoke_object k table object type).0

unfoldable pub run : Kernel → List Call → Kernel
run k [] = k
run k (c ∷ cs) = run (step k c) cs

-- What `capability_insert` has checked before it writes slot `i`.
pub record Writable (k : Kernel) (table i : ℕ) (type : CapabilityType) : Type 0 where
  pub live : table_live k table ≡ true
  pub in_table : i < 64
  pub was_free : (slot_at k table i).occupied ≡ false
  pub typed : type_valid type ≡ true

-- A predicate on kernels that the four stores of the capability system keep.
pub record Keeps (P : Kernel → Type 0) : Type 0 where
  pub on_install :
      (k : Kernel)
      → P k
      → (table : ℕ) → nonzero table ≡ true
      → can_install k table ≡ true
      → P (install_table k table)
  pub on_remove :
      (k : Kernel)
      → P k
      → (table : ℕ) → (table_valid k table && ((k.tables table).count == 0)) ≡ true
      → P (remove_table k table)
  pub on_grant :
      (k : Kernel)
      → P k
      → (table i object identity : ℕ) (type : CapabilityType) (rights : ℕ) → Writable k table i type
      → P (
          grant_slot k table i
            (grant_of object identity type rights (k.next_generation i))
            (k.next_generation i + 1))
  pub on_delete :
      (k : Kernel)
      → P k
      → (table i : ℕ) → table_live k table ≡ true
      → i < 64
      → (slot_at k table i).occupied ≡ true
      → P (delete_slot k table i)

resolve_bounds :
    (k : Kernel) (table handle : ℕ) {i : ℕ}
    → resolve_slot k table handle ≡ some i
    → (i < 64) × ((slot_at k table i).occupied ≡ true)
unfolding resolve_slot slot_refs
resolve_bounds k table handle e = ground arith

module _ (P : Kernel → Type 0) (keep : Keeps P) where
  delete_loop-keeps :
      (k : Kernel) (table object : ℕ) (type : CapabilityType) (all : Bool) (left i : ℕ)
      → i + left ≡ 64
      → table_live k table ≡ true
      → P k
      → P (delete_loop k table object type all left i)
  unfolding delete_loop
  delete_loop-keeps k table object type all zero i b l p = p
  delete_loop-keeps k table object type all (suc left) i b l p =
      elim (Bool-cases (selected (slot_at k table i) object type all)) [
        | inl hit ↦ rw hit (
            delete_loop-keeps (delete_slot k table i) table object type all left (i + 1)
              (omega arith) (rw ((delete_keeps k table i).0) l)
              (keep.on_delete k p table i l (omega arith) (ground arith)))
        | inr miss ↦
            rw miss (delete_loop-keeps k table object type all left (i + 1) (omega arith) l p)
      ]

  delete_selected-keeps :
      (k : Kernel) (table object : ℕ) (type : CapabilityType) (all : Bool)
      → P k
      → P (delete_selected k table object type all).0
  unfolding delete_selected
  delete_selected-keeps k table object type all p = elim (Bool-cases (table_valid k table)) [
    | inr bad ↦ rw bad p
    | inl valid ↦ rw valid (
        if_both (λ (r : Kernel × Bool). P r.0) _ (λ _. p)
          (λ _.
            delete_loop-keeps k table object type all 64 0 refl (live_of_valid k table valid).0 p))
  ]

  revoke-keeps : (k : Kernel) (table handle : ℕ) → P k → P (capability_revoke k table handle).0
  unfolding capability_revoke
  revoke-keeps k table handle p = elim (Option-cases (resolve_slot k table handle)) [
    | inl missing ↦ rw (missing, capability_revoke) p
    | inr (i, found) ↦
        let (in_table, occ) = resolve_bounds k table handle found in
        rw (found, capability_revoke)
          (if_both (λ (r : Kernel × Bool). P r.0) (table_valid k table)
            (λ h. keep.on_delete k p table i (live_of_valid k table h).0 in_table occ) (λ _. p))
  ]

  insert-keeps :
      (k : Kernel) (table object : ℕ) (type : CapabilityType) (rights : ℕ)
      → P k
      → P (after_insert k (capability_insert k table object type rights))
  insert-keeps k table object type rights p =
      elim (Option-cases (capability_insert k table object type rights)) [
        | inl refused ↦ rw (refused, after_insert) p
        | inr ((k', handle), done) ↦
            let granted = capability_insert-Granted k table object type rights done in
            let s = granted.done in
            let made : k'
                ≡ grant_slot k table s.index
                    (grant_of object s.identity type rights (k.next_generation s.index))
                    (k.next_generation s.index + 1) =
              ap (λ (r : Kernel × ℕ). r.0) s.returns in
            let w : Writable k table s.index type = record {
              live = (live_of_valid k table granted.valid).0;
              in_table = s.in_table;
              was_free = s.was_free;
              typed = granted.typed;
            } in
            rw (done, after_insert, made)
              (keep.on_grant k p table s.index object s.identity type rights w)
      ]

  -- So every call of an entry keeps it.
  pub step-keeps : (k : Kernel) (c : Call) → P k → P (step k c)
  unfolding step capability_table_init capability_table_destroy capability_revoke_all
      capability_revoke_object
  step-keeps k (inits table) p =
      if_both (λ (r : Kernel × Bool). P r.0) (nonzero table && can_install k table)
        (λ h. keep.on_install k p table (ground arith) (ground arith)) (λ _. p)
  step-keeps k (destroys table) p =
      if_both (λ (r : Kernel × Bool). P r.0) (table_valid k table && ((k.tables table).count == 0))
        (λ h. keep.on_remove k p table h) (λ _. p)
  step-keeps k (revokes_all table) p = delete_selected-keeps k table 0 type_none true p
  step-keeps k (inserts table object type rights) p = insert-keeps k table object type rights p
  step-keeps k (revokes table handle) p = revoke-keeps k table handle p
  step-keeps k (revokes_object table object type) p =
      if_both (λ (r : Kernel × Bool). P r.0) _ (λ _. p)
        (λ _. delete_selected-keeps k table object type false p)
