-- ===== src/Capability/Counts.antt =====
-- Installing and removing tables in kernel/capability.c keeps the reference counts exact, and so does
-- every history of calls.
use jcos.Prelude.{
  ℕ, zero, suc, ◌+◌, ◌≤◌, ◌<◌, ◌≡◌, ◌≢◌, refl, sym, ◌∙◌, ap, true, false, ◌&&◌, List, [], ◌∷◌,
  Option, none, some, arith, ◌==◌, if◌then◌else◌, nonzero, Bool-cases, inl, inr, set, length,
  length-set,
}
use jcos.ObjectStorage.{
  object_storage_empty, object_storage_find, occurrences, live-occurs, occurrences-register,
  occurrences-unregister, empty_slot_null, live-register, live-unregister, find_slot_at,
}
use jcos.Kernel.{Kernel, CapabilitySlot, CapabilityType}
use jcos.Kernel.Refs.{refs-with_tables}
use jcos.Capability.{
  slot_at, table_valid, install_table, remove_table, can_install, count_slots, count_is, empty_slot,
}
use jcos.Capability.Lookup.{live_of_valid}
use jcos.Capability.Weights.{pins, pins_free, weight, weight-set, weight_absent, weight_once}
use jcos.Capability.Calls.{Call, step, run, Keeps, step-keeps}
use jcos.Capability.Pins.{held, IsPinned, live_ne_zero, live_once, grant-IsPinned, delete-IsPinned}

-- The pins of a table that holds nothing.
empty_pins : (u : CapabilityType) (o : ℕ) → pins (λ _. empty_slot) u o 64 ≡ 0
empty_pins u o = pins_free (λ _. empty_slot) u o 64 (λ i l. refl)

nz_weight : (w t : ℕ) → nonzero t ≡ true → (if nonzero t then w else 0) ≡ w
nz_weight w t h = rw h refl

install-IsPinned :
    (k : Kernel) (table : ℕ)
    → IsPinned k
    → nonzero table ≡ true
    → can_install k table ≡ true
    → IsPinned (install_table k table)
unfolding install_table held
install-IsPinned k table p nz h =
    let room : object_storage_empty k.table_storage < length k.table_storage = ground arith in
    let absent : occurrences k.table_storage table ≡ 0 =
      ground (arith, live-occurs k.table_storage table (ground arith)) in
    record {
      counted = λ u o nu.
          let w : ℕ → ℕ = λ t. pins (k.tables t).slots u o 64 in
          let x : ℕ → ℕ = λ t. pins ((install_table k table).tables t).slots u o 64 in
          let there : (a : ℕ) → a ≢ table → w a ≡ x a = λ a ne.
            let same : ((install_table k table).tables a).slots ≡ (k.tables a).slots =
              ground arith in
            ap (λ (f : ℕ → CapabilitySlot). pins f u o 64) (sym same) in
          let here : ((install_table k table).tables table).slots ≡ (λ _. empty_slot) =
            ground arith in
          let empty : x table ≡ 0 =
            ap (λ (f : ℕ → CapabilitySlot). pins f u o 64) here ∙ empty_pins u o in
          let null = empty_slot_null k.table_storage in
          let added =
            weight-set x k.table_storage (object_storage_empty k.table_storage) table room in
          let same = weight_absent w x table k.table_storage there absent in
          let total : weight x (set k.table_storage (object_storage_empty k.table_storage) table)
              ≡ weight w k.table_storage =
            omega (arith, rw null at added, same, empty, nz_weight (x table) table nz) in
          refs-with_tables k _ _ _ _ u o ∙ p.counted u o nu ∙ sym total;
      once = λ t ne.
          ground (arith, occurrences-register k.table_storage table t room ne, p.once t ne, absent);
      registry =
          rw (length-set k.table_storage (object_storage_empty k.table_storage) table) p.registry;
      typed = λ t j l b occ. elim (Bool-cases (table == t)) [
        | inl here ↦ absurd (ground arith)
        | inr there ↦ elim (live-register k.table_storage table t room l) [
          | inl before ↦
              let same : slot_at (install_table k table) t j ≡ slot_at k t j = ground arith in
              rw same (p.typed t j before b (rw same at occ))
          | inr same ↦ absurd (ground arith)
        ]
      ];
    }

-- A count of zero leaves no slot occupied.
count_slots-ge :
    (k : Kernel) (table left i count n : ℕ) → count_slots k table left i count ≡ some n → count ≤ n
unfolding count_slots
count_slots-ge k table zero i count n e = ground arith
count_slots-ge k table (suc left) i count n e =
    let count' = if (slot_at k table i).occupied then count + 1 else count in
    ground (arith, count_slots-ge k table left (i + 1) count' n)

count_slots_occupied :
    (k : Kernel) (table left i count j n : ℕ)
    → count_slots k table left i count ≡ some n
    → i ≤ j
    → j < i + left
    → (slot_at k table j).occupied ≡ true
    → count < n
unfolding count_slots
count_slots_occupied k table zero i count j n e lo hi occ = absurd (omega arith)
count_slots_occupied k table (suc left) i count j n e lo hi occ =
    let count' = if (slot_at k table i).occupied then count + 1 else count in
    elim (Bool-cases (i == j)) [
      | inl here ↦
          let same : i ≡ j = ground arith in
          let here_occ : (slot_at k table i).occupied ≡ true = rw same occ in
          let ge = count_slots-ge k table left (i + 1) count' n in ground arith
      | inr there ↦ let later = count_slots_occupied k table left (i + 1) count' j n in ground arith
    ]

count_is_inv : (o : Option ℕ) (c : ℕ) → count_is o c ≡ true → o ≡ some c
unfolding count_is
count_is_inv none c h = cc
count_is_inv (some n) c h = ground arith

counts_of_valid :
    (k : Kernel) (table : ℕ)
    → table_valid k table ≡ true
    → count_is (count_slots k table 64 0 0) (k.tables table).count ≡ true
unfolding table_valid
counts_of_valid k table h = ground arith

valid_count :
    (k : Kernel) (table : ℕ)
    → (table_valid k table && ((k.tables table).count == 0)) ≡ true
    → count_slots k table 64 0 0 ≡ some 0
valid_count k table h =
    let zero_count : (k.tables table).count ≡ 0 = ground arith in
    rw zero_count at
      (count_is_inv _ (k.tables table).count (counts_of_valid k table (ground arith)))

valid_empty :
    (k : Kernel) (table j : ℕ)
    → (table_valid k table && ((k.tables table).count == 0)) ≡ true
    → j < 64
    → (slot_at k table j).occupied ≡ false
valid_empty k table j h b = elim (Bool-cases ((slot_at k table j).occupied)) [
  | inr free ↦ free
  | inl occ ↦
      let counted = valid_count k table h in
      absurd (omega (arith, count_slots_occupied k table 64 0 0 j 0 counted (omega arith) b occ))
]

remove-IsPinned :
    (k : Kernel) (table : ℕ)
    → IsPinned k
    → (table_valid k table && ((k.tables table).count == 0)) ≡ true
    → IsPinned (remove_table k table)
unfolding remove_table held
remove-IsPinned k table p h =
    let live = (live_of_valid k table (ground arith)).0 in
    let (inside, at) = find_slot_at k.table_storage table live in
    let nz = live_ne_zero k table live in
    record {
      counted = λ u o nu.
          let w : ℕ → ℕ = λ t. pins (k.tables t).slots u o 64 in
          let x : ℕ → ℕ = λ t. pins ((remove_table k table).tables t).slots u o 64 in
          let there : (a : ℕ) → a ≢ table → w a ≡ x a = λ a ne.
            let same : ((remove_table k table).tables a).slots ≡ (k.tables a).slots =
              ground arith in
            ap (λ (f : ℕ → CapabilitySlot). pins f u o 64) (sym same) in
          let here : ((remove_table k table).tables table).slots ≡ (λ _. empty_slot) =
            ground arith in
          let empty : x table ≡ 0 =
            ap (λ (f : ℕ → CapabilitySlot). pins f u o 64) here ∙ empty_pins u o in
          let was_empty : w table ≡ 0 =
            pins_free (k.tables table).slots u o 64 (λ i l. valid_empty k table i h l) in
          let cleared =
            weight-set x k.table_storage (object_storage_find k.table_storage table) 0 inside in
          let moved = weight_once w x table k.table_storage there nz (live_once k table p live) in
          let total : weight x (set k.table_storage (object_storage_find k.table_storage table) 0)
              ≡ weight w k.table_storage =
            omega (
              arith,
              rw at at cleared,
              moved,
              empty,
              was_empty,
              nz_weight (x table) table (ground arith),
            ) in
          refs-with_tables k _ _ _ _ u o ∙ p.counted u o nu ∙ sym total;
      once = λ t ne.
          ground (arith, occurrences-unregister k.table_storage table t live ne, p.once t ne);
      registry =
          rw (length-set k.table_storage (object_storage_find k.table_storage table) 0) p.registry;
      typed = λ t j l b occ. elim (Bool-cases (table == t)) [
        | inl here ↦ absurd (ground arith)
        | inr there ↦
            let same : slot_at (remove_table k table) t j ≡ slot_at k t j = ground arith in
            let before = live-unregister k.table_storage table t live l in
            rw same (p.typed t j before b (rw same at occ))
      ];
    }

Keeps-IsPinned : Keeps IsPinned
Keeps-IsPinned = record {
  on_install = λ k p table nz h. install-IsPinned k table p nz h;
  on_remove = λ k p table h. remove-IsPinned k table p h;
  on_grant = λ k p table i object identity type rights w.
      grant-IsPinned k table i object identity type rights p w;
  on_delete = λ k p table i live b occ. delete-IsPinned k table i p live b occ;
}

-- Whatever calls are made, the reference count of every object stays equal to the number of occupied
-- slots, over all live tables, that name it; so a count is zero exactly when no capability is left.
pub run-IsPinned : (k : Kernel) (cs : List Call) → IsPinned k → IsPinned (run k cs)
unfolding run
run-IsPinned k [] p = p
run-IsPinned k (c ∷ cs) p = run-IsPinned (step k c) cs (step-keeps IsPinned Keeps-IsPinned k c p)
