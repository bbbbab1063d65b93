-- ===== src/Capability/Evolve.antt =====
-- How the operations of kernel/capability.c move the generations: the issuers only grow, and a slot
-- of a live table is kept, freed, blank, or holds the value that its issuer has just left.
use jcos.Prelude.{
  ℕ, ◌+◌, ◌≤◌, ◌<◌, ◌≡◌, refl, sym, ◌∙◌, true, false, ◌&&◌, ◌⊎◌, arith, ◌==◌, Bool-cases, inl, inr,
}
use jcos.ObjectStorage.{live-register, live-unregister}
use jcos.Kernel.{Kernel, CapabilitySlot}
use jcos.Capability.{
  slot_at, table_live, grant_slot, delete_slot, install_table, remove_table, can_install,
}
use jcos.Capability.Slots.{slot_at-grant, grant_keeps, slot_at-delete, delete_keeps}

-- Every live table's generations lie below the issuers, and no generation of an index is occupied
-- in two live tables.
pub record IsFresh (k : Kernel) : Type 0 where
  pub ready : (t : ℕ) → table_live k t ≡ true → k.issuers_initialized ≡ true
  pub issued : (t i : ℕ) → table_live k t ≡ true → (slot_at k t i).generation < k.next_generation i
  pub positive : k.issuers_initialized ≡ true → (i : ℕ) → 0 < k.next_generation i
  pub unique :
      (t u i : ℕ)
      → table_live k t ≡ true
      → table_live k u ≡ true
      → (slot_at k t i).occupied ≡ true
      → (slot_at k u i).occupied ≡ true
      → (slot_at k t i).generation ≡ (slot_at k u i).generation
      → t ≡ u

-- Generation `g` of index `i` was issued, and no live table holds it.
pub record IsSpent (g i : ℕ) (k : Kernel) : Type 0 where
  pub ready : k.issuers_initialized ≡ true
  pub issued : g < k.next_generation i
  pub absent :
      (t : ℕ)
      → table_live k t ≡ true
      → (slot_at k t i).generation ≡ g
      → (slot_at k t i).occupied ≡ false

-- A slot of a live table after a step: as before or freed, blank, or granted in table `owner`.
abbrev pub Kept : Kernel → Kernel → ℕ → ℕ → Type 0
Kept k k' t i =
    (table_live k t ≡ true)
    × ((slot_at k' t i).generation ≡ (slot_at k t i).generation)
    × ((slot_at k' t i).occupied ≡ true → (slot_at k t i).occupied ≡ true)

abbrev pub Blank : Kernel → ℕ → ℕ → Type 0
Blank k' t i = ((slot_at k' t i).generation ≡ 0) × ((slot_at k' t i).occupied ≡ false)

abbrev pub Fresh : Kernel → Kernel → ℕ → ℕ → ℕ → Type 0
Fresh k k' owner t i =
    (t ≡ owner)
    × (table_live k t ≡ true)
    × ((slot_at k' t i).generation ≡ k.next_generation i)
    × (k'.next_generation i ≡ k.next_generation i + 1)

-- What every operation has in common, from a kernel that is fresh.
pub record Evolves (k k' : Kernel) : Type 0 where
  pub owner : ℕ
  pub ready : k.issuers_initialized ≡ true → k'.issuers_initialized ≡ true
  pub live_ready : (t : ℕ) → table_live k' t ≡ true → k'.issuers_initialized ≡ true
  pub positive : k'.issuers_initialized ≡ true → (i : ℕ) → 0 < k'.next_generation i
  pub grows : k.issuers_initialized ≡ true → (i : ℕ) → k.next_generation i ≤ k'.next_generation i
  pub slots :
      (t i : ℕ) → table_live k' t ≡ true → Kept k k' t i ⊎ Blank k' t i ⊎ Fresh k k' owner t i

pub Evolves-IsSpent : {k k' : Kernel} (g i : ℕ) → Evolves k k' → IsSpent g i k → IsSpent g i k'
Evolves-IsSpent {k} {k'} g i e s = record {
  ready = e.ready s.ready;
  issued = omega (arith, s.issued, e.grows s.ready i);
  absent = λ t live gen. elim (e.slots t i live) [
    | inl kept ↦ ground (arith, s.absent t kept.0, kept.1, kept.2)
    | inr (inl blank) ↦ blank.1
    | inr (inr fresh) ↦ absurd (omega (arith, s.issued, fresh.2, gen))
  ];
}

pub Evolves-IsFresh : {k k' : Kernel} → Evolves k k' → IsFresh k → IsFresh k'
Evolves-IsFresh {k} {k'} e f = record {
  ready = e.live_ready;
  positive = e.positive;
  issued = λ t i live. elim (e.slots t i live) [
    | inl kept ↦ omega (arith, kept.1, f.issued t i kept.0, e.grows (f.ready t kept.0) i)
    | inr (inl blank) ↦ omega (arith, blank.0, e.positive (e.live_ready t live) i)
    | inr (inr fresh) ↦ omega (arith, fresh.2, fresh.3)
  ];
  unique = λ t u i live_t live_u occ_t occ_u same. elim (e.slots t i live_t) [
    | inr (inl blank) ↦ ground (arith, blank.1, occ_t)
    | inl kept ↦ elim (e.slots u i live_u) [
      | inr (inl blank) ↦ ground (arith, blank.1, occ_u)
      | inl kept_u ↦
          f.unique t u i kept.0 kept_u.0 (kept.2 occ_t) (kept_u.2 occ_u)
            (sym kept.1 ∙ same ∙ kept_u.1)
      | inr (inr fresh) ↦ absurd (omega (arith, kept.1, same, fresh.2, f.issued t i kept.0))
    ]
    | inr (inr fresh) ↦ elim (e.slots u i live_u) [
      | inr (inl blank) ↦ ground (arith, blank.1, occ_u)
      | inl kept_u ↦ absurd (omega (arith, kept_u.1, same, fresh.2, f.issued u i kept_u.0))
      | inr (inr fresh_u) ↦ fresh.0 ∙ sym fresh_u.0
    ]
  ];
}

module _ {k : Kernel} (f : IsFresh k) where
  pub Evolves-refl : Evolves k k
  Evolves-refl = record {
    owner = 0;
    ready = λ h. h;
    live_ready = f.ready;
    positive = f.positive;
    grows = λ h i. omega arith;
    slots = λ t i live. inl (live, refl, λ h. h);
  }

  pub install-Evolves : (table : ℕ) → can_install k table ≡ true → Evolves k (install_table k table)
  unfolding install_table
  install-Evolves table h = record {
    owner = 0;
    ready = λ r. refl;
    live_ready = λ t l. refl;
    positive = λ r i. elim (Bool-cases k.issuers_initialized) [
      | inl old ↦ rw old (f.positive old i)
      | inr boot ↦ rw boot (omega arith)
    ];
    grows = λ r i. ground arith;
    slots = λ t i l. elim (Bool-cases (table == t)) [
      | inl here ↦ inr (inl (ground arith, ground arith))
      | inr there ↦ elim (live-register k.table_storage table t (ground arith) l) [
        | inl before ↦ inl (before, ground arith, ground arith)
        | inr same ↦ absurd (ground arith)
      ]
    ];
  }

  pub remove-Evolves : (table : ℕ) → table_live k table ≡ true → Evolves k (remove_table k table)
  unfolding remove_table
  remove-Evolves table h = record {
    owner = 0;
    ready = λ r. r;
    live_ready = λ t l. f.ready t (live-unregister k.table_storage table t h l);
    positive = f.positive;
    grows = λ r i. omega arith;
    slots = λ t i l. elim (Bool-cases (table == t)) [
      | inl here ↦ inr (inl (ground arith, ground arith))
      | inr there ↦ inl (live-unregister k.table_storage table t h l, ground arith, ground arith)
    ];
  }

  pub grant-Evolves :
      (table i next : ℕ) (slot : CapabilitySlot)
      → table_live k table ≡ true
      → slot.generation ≡ k.next_generation i
      → next ≡ k.next_generation i + 1
      → Evolves k (grant_slot k table i slot next)
  grant-Evolves table i next slot live gen next_is =
      let (storage, gens, ready) = grant_keeps k table i slot next in
      record {
        owner = table;
        ready = λ h. ready ∙ h;
        live_ready = λ t l. ready ∙ f.ready t (rw storage at l);
        positive = λ h j. rw gens (ground (arith, f.positive (sym ready ∙ h) j));
        grows = λ h j. rw gens (ground arith);
        slots = λ t j l. elim (Bool-cases ((table == t) && (i == j))) [
          | inl here ↦ inr (
              inr (
                ground arith,
                rw storage at l,
                ground (arith, slot_at-grant k table i slot next t j),
                rw gens (ground arith),
              ))
          | inr there ↦ inl (
            rw storage at l,
            ground (arith, slot_at-grant k table i slot next t j),
            λ h. ground (arith, slot_at-grant k table i slot next t j),
          )
        ];
      }

  pub delete-Evolves : (table i : ℕ) → Evolves k (delete_slot k table i)
  delete-Evolves table i =
      let (storage, gens, ready) = delete_keeps k table i in
      record {
        owner = table;
        ready = λ h. ready ∙ h;
        live_ready = λ t l. ready ∙ f.ready t (rw storage at l);
        positive = λ h j. rw gens (f.positive (sym ready ∙ h) j);
        grows = λ h j. rw gens (omega arith);
        slots = λ t j l. inl (
          rw storage at l,
          ground (arith, slot_at-delete k table i t j),
          λ h. ground (arith, slot_at-delete k table i t j),
        );
      }
