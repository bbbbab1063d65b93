-- ===== src/Capability/Stale.antt =====
-- Stale handles of kernel/capability.c: the issuers never repeat a generation, so a deleted handle
-- resolves in no table, whatever is done afterwards.
use jcos.Prelude.{
  ℕ, ◌+◌, ◌/◌, ◌^◌, ◌≡◌, refl, ◌∙◌, true, none, some, List, [], ◌∷◌, arith, ◌==◌, u32, Bool-cases,
  Option-cases, inl, inr,
}
use jcos.Kernel.{Kernel, CapabilityType}
use jcos.Capability.{
  slot_at, slot_refs, table_live, capability_revoke, capability_lookup_rights, resolve_slot,
  delete_slot,
}
use jcos.Capability.Lookup.{live_of_valid}
use jcos.Capability.Slots.{grant_of, slot_at-delete, delete_keeps}
use jcos.Capability.Calls.{Call, step, run, Keeps, step-keeps}
use jcos.Capability.Evolve.{
  IsFresh, IsSpent, Evolves-IsSpent, Evolves-IsFresh, install-Evolves, remove-Evolves,
  grant-Evolves, delete-Evolves,
}

Keeps-IsFresh : Keeps IsFresh
Keeps-IsFresh = record {
  on_install = λ k f table nz h. Evolves-IsFresh (install-Evolves f table h) f;
  on_remove = λ k f table h.
      Evolves-IsFresh (remove-Evolves f table (live_of_valid k table (ground arith)).0) f;
  on_grant = λ k f table i object identity type rights w.
      Evolves-IsFresh
        (grant-Evolves f table i (k.next_generation i + 1)
          (grant_of object identity type rights (k.next_generation i)) w.live refl refl)
        f;
  on_delete = λ k f table i live l occ. Evolves-IsFresh (delete-Evolves f table i) f;
}

Keeps-IsSpent : (g i : ℕ) → Keeps (λ k. IsFresh k × IsSpent g i k)
Keeps-IsSpent g i = record {
  on_install = λ k p table nz h.
      let e = install-Evolves p.0 table h in (Evolves-IsFresh e p.0, Evolves-IsSpent g i e p.1);
  on_remove = λ k p table h.
      let e = remove-Evolves p.0 table (live_of_valid k table (ground arith)).0 in
      (Evolves-IsFresh e p.0, Evolves-IsSpent g i e p.1);
  on_grant = λ k p table j object identity type rights w.
      let e =
        grant-Evolves p.0 table j (k.next_generation j + 1)
          (grant_of object identity type rights (k.next_generation j)) w.live refl refl in
      (Evolves-IsFresh e p.0, Evolves-IsSpent g i e p.1);
  on_delete = λ k p table j live l occ.
      let e = delete-Evolves p.0 table j in (Evolves-IsFresh e p.0, Evolves-IsSpent g i e p.1);
}

step-IsFresh : (k : Kernel) (c : Call) → IsFresh k → IsFresh (step k c)
step-IsFresh k c f = step-keeps IsFresh Keeps-IsFresh k c f

step-IsSpent :
    (k : Kernel) (c : Call) (g i : ℕ)
    → IsFresh k
    → IsSpent g i k
    → IsFresh (step k c) × IsSpent g i (step k c)
step-IsSpent k c g i f s =
    step-keeps (λ j. IsFresh j × IsSpent g i j) (Keeps-IsSpent g i) k c (f, s)

-- No history of calls repeats a generation: the issuers stay ahead of every live table, and no
-- generation of an index is ever occupied in two live tables.
pub run-IsFresh : (k : Kernel) (cs : List Call) → IsFresh k → IsFresh (run k cs)
unfolding run
run-IsFresh k [] f = f
run-IsFresh k (c ∷ cs) f = run-IsFresh (step k c) cs (step-IsFresh k c f)

run-IsSpent :
    (k : Kernel) (cs : List Call) (g i : ℕ) → IsFresh k → IsSpent g i k → IsSpent g i (run k cs)
unfolding run
run-IsSpent k [] g i f s = s
run-IsSpent k (c ∷ cs) g i f s =
    run-IsSpent (step k c) cs g i (step-IsFresh k c f) (step-IsSpent k c g i f s).1

-- A spent generation resolves in no table.
resolve_spent :
    (k : Kernel) (table handle : ℕ)
    → IsSpent (u32 (handle / 2 ^ 32)) (u32 handle) k
    → resolve_slot k table handle ≡ none
unfolding resolve_slot slot_refs
resolve_spent k table handle s = ground (arith, s.absent table)

resolve_parts :
    (k : Kernel) (table handle : ℕ) {i : ℕ}
    → resolve_slot k table handle ≡ some i
    → (i ≡ u32 handle)
      × (table_live k table ≡ true)
      × ((slot_at k table (u32 handle)).generation ≡ u32 (handle / 2 ^ 32))
      × ((slot_at k table (u32 handle)).occupied ≡ true)
unfolding resolve_slot slot_refs
resolve_parts k table handle e = ground arith

-- Deleting the one occupied slot of a generation spends it.
delete_spends :
    (k : Kernel) (table i : ℕ)
    → IsFresh k
    → table_live k table ≡ true
    → (slot_at k table i).occupied ≡ true
    → IsSpent ((slot_at k table i).generation) i (delete_slot k table i)
delete_spends k table i f live occ =
    let (storage, gens, ready) = delete_keeps k table i in
    record {
      ready = ready ∙ f.ready table live;
      issued = rw gens (f.issued table i live);
      absent = λ t l gen. elim (Bool-cases ((slot_at k t i).occupied)) [
        | inr free ↦ ground (arith, slot_at-delete k table i t i)
        | inl held ↦ elim (Bool-cases (table == t)) [
          | inl here ↦ ground (arith, slot_at-delete k table i t i)
          | inr there ↦
              let same : (slot_at k t i).generation ≡ (slot_at k table i).generation =
                ground (arith, slot_at-delete k table i t i) in
              let one = f.unique t table i (rw storage at l) live held occ same in
              absurd (ground arith)
        ]
      ];
    }

revoke_spends :
    (k : Kernel) (table handle : ℕ) {k' : Kernel}
    → IsFresh k
    → capability_revoke k table handle ≡ (k', true)
    → IsFresh k' × IsSpent (u32 (handle / 2 ^ 32)) (u32 handle) k'
unfolding capability_revoke
revoke_spends k table handle {k'} f e = elim (Option-cases (resolve_slot k table handle)) [
  | inl missing ↦ absurd (ground arith)
  | inr (i, found) ↦
      let (index, live, gen, occ) = resolve_parts k table handle found in
      let made : k' ≡ delete_slot k table (u32 handle) = ground arith in
      rw made (
        Evolves-IsFresh (delete-Evolves f table (u32 handle)) f,
        rw gen at (delete_spends k table (u32 handle) f live occ),
      )
]

-- A revoked handle is dead for good: after `capability_revoke` succeeds, no table resolves it at any
-- type or rights, whatever calls follow, reuse of the slot, the table and the object included.
pub revoked_never_resolves :
    (k k' : Kernel) (table handle : ℕ)
    → IsFresh k
    → capability_revoke k table handle ≡ (k', true)
    → (cs : List Call) (t : ℕ) (type : CapabilityType) (required : ℕ)
    → capability_lookup_rights (run k' cs) t handle type required ≡ none
unfolding capability_lookup_rights
revoked_never_resolves k k' table handle f e cs t type required =
    let (fresh, spent) = revoke_spends k table handle f e in
    let dead =
      resolve_spent (run k' cs) t handle
        (run-IsSpent k' cs (u32 (handle / 2 ^ 32)) (u32 handle) fresh spent) in
    rw (dead, capability_lookup_rights)
