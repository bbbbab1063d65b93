-- ===== src/ObjectStorage.antt =====
-- kernel/object_storage.h: fixed registries of live object addresses; zero is an empty slot.
use mathlib.Core.Bool.{false≢true}
use jcos.Prelude.{
  ℕ, zero, suc, ◌+◌, ◌≤◌, ◌<◌, ◌≡◌, ◌≢◌, Bool, true, false, List, [], ◌∷◌, arith, ◌==◌,
  if◌then◌else◌, nonzero, length, get_or, set, ltb, Bool-cases, inl, inr, ◌-◌, ◌⊎◌, sym, ◌∙◌,
}

-- The loop of `object_storage_find` from index `i` on; the length stands for `count`.
find_from : List ℕ → ℕ → ℕ → ℕ
find_from [] object i = i
find_from (s ∷ slots) object i =
    let rest = find_from slots object (i + 1) in if s == object then i else rest

unfoldable pub object_storage_find : List ℕ → ℕ → ℕ
unfolding find_from
object_storage_find slots object = if nonzero object then find_from slots object 0 else length slots

empty_from : List ℕ → ℕ → ℕ
empty_from [] i = i
empty_from (s ∷ slots) i = let rest = empty_from slots (i + 1) in if nonzero s then rest else i

unfoldable pub object_storage_empty : List ℕ → ℕ
unfolding empty_from
object_storage_empty slots = empty_from slots 0

unfoldable pub object_storage_count : List ℕ → ℕ
object_storage_count [] = 0
object_storage_count (s ∷ slots) = (if nonzero s then 1 else 0) + object_storage_count slots

-- `object_storage_find(…) < count`, which every owner of a registry calls live.
unfoldable pub storage_live : List ℕ → ℕ → Bool
unfolding object_storage_find
storage_live slots object = ltb (object_storage_find slots object) (length slots)

-- How often an address is registered.
abbrev pub occurrences : List ℕ → ℕ → ℕ
occurrences [] a = 0
occurrences (s ∷ slots) a = (if s == a then 1 else 0) + occurrences slots a

find_from-bounds :
    (slots : List ℕ) (a i : ℕ)
    → (i ≤ find_from slots a i) × (find_from slots a i ≤ i + length slots)
unfolding find_from
find_from-bounds [] a i = omega arith
find_from-bounds (s ∷ slots) a i = ground (arith, find_from-bounds slots a (i + 1))

find_from-lt_iff :
    (slots : List ℕ) (a i : ℕ)
    → ltb (find_from slots a i) (i + length slots) ≡ nonzero (occurrences slots a)
unfolding find_from
find_from-lt_iff [] a i = ground arith
find_from-lt_iff (s ∷ slots) a i =
    ground (arith, find_from-lt_iff slots a (i + 1), find_from-bounds slots a (i + 1))

-- A registered address is one that occurs in the registry.
pub live-occurs :
    (slots : List ℕ) (a : ℕ) → a ≢ 0 → storage_live slots a ≡ nonzero (occurrences slots a)
unfolding storage_live
live-occurs slots a h = ground (arith, find_from-lt_iff slots a 0)

pub null_not_live : (slots : List ℕ) → storage_live slots 0 ≡ false
unfolding storage_live
null_not_live slots = ground arith

-- A write at `i` replaces what stood there.
occurrences-set :
    (slots : List ℕ) (i v a : ℕ)
    → i < length slots
    → occurrences (set slots i v) a + (if get_or slots i 0 == a then 1 else 0)
      ≡ occurrences slots a + (if v == a then 1 else 0)
occurrences-set [] i v a h = absurd (omega arith)
occurrences-set (s ∷ slots) zero v a h = ground arith
occurrences-set (s ∷ slots) (suc i) v a h = ground (arith, occurrences-set slots i v a)

empty_from-at :
    (slots : List ℕ) (i : ℕ)
    → (i ≤ empty_from slots i) × (get_or slots (empty_from slots i - i) 0 ≡ 0)
unfolding empty_from
empty_from-at [] i = ground arith
empty_from-at (s ∷ slots) i = elim (Bool-cases (nonzero s)) [
  | inl used ↦
      let (lo, at) = empty_from-at slots (i + 1) in
      let e : empty_from slots (i + 1) - i ≡ suc (empty_from slots (i + 1) - (i + 1)) =
        omega arith in
      rw used (omega arith, rw e at)
  | inr free ↦ let e : i - i ≡ 0 = omega arith in rw (free, e) (omega arith, ground arith)
]

find_from-at :
    (slots : List ℕ) (a i : ℕ)
    → find_from slots a i < i + length slots
    → (i ≤ find_from slots a i) × (get_or slots (find_from slots a i - i) 0 ≡ a)
unfolding find_from
find_from-at [] a i h = absurd (omega arith)
find_from-at (s ∷ slots) a i h = elim (Bool-cases (s == a)) [
  | inl here ↦ let e : i - i ≡ 0 = omega arith in rw (here, e) (omega arith, ground arith)
  | inr there ↦
      let bounds = find_from-bounds slots a (i + 1) in
      let h' : find_from slots a (i + 1) < i + 1 + length slots = ground arith in
      let (lo, at) = find_from-at slots a (i + 1) h' in
      let e : find_from slots a (i + 1) - i ≡ suc (find_from slots a (i + 1) - (i + 1)) =
        omega arith in
      rw there (omega arith, rw e at)
]

-- The slot that a registration takes is empty, and the slot that an unregistration clears is its own.
pub empty_slot_null : (slots : List ℕ) → get_or slots (object_storage_empty slots) 0 ≡ 0
unfolding object_storage_empty
empty_slot_null slots =
    let e : empty_from slots 0 - 0 ≡ empty_from slots 0 = omega arith in
    rw e at ((empty_from-at slots 0).1)

empty_from-le : (slots : List ℕ) (i : ℕ) → empty_from slots i ≤ i + length slots
unfolding empty_from
empty_from-le [] i = omega arith
empty_from-le (s ∷ slots) i = ground (arith, empty_from-le slots (i + 1))

pub empty_slot_le : (slots : List ℕ) → object_storage_empty slots ≤ length slots
unfolding object_storage_empty
empty_slot_le slots = omega (arith, empty_from-le slots 0)

pub find_slot_at :
    (slots : List ℕ) (a : ℕ)
    → storage_live slots a ≡ true
    → (object_storage_find slots a < length slots)
      × (get_or slots (object_storage_find slots a) 0 ≡ a)
unfolding object_storage_find storage_live
find_slot_at slots a h = elim (Bool-cases (nonzero a)) [
  | inr null ↦ absurd (ground arith)
  | inl some_object ↦
      let l : find_from slots a 0 < 0 + length slots = ground arith in
      let e : find_from slots a 0 - 0 ≡ find_from slots a 0 = omega arith in
      let at : get_or slots (find_from slots a 0) 0 ≡ a = rw e at ((find_from-at slots a 0 l).1) in
      rw some_object (omega arith, at)
]

-- Registering an address at the empty slot adds one occurrence of it and of no other object.
pub occurrences-register :
    (slots : List ℕ) (a b : ℕ)
    → object_storage_empty slots < length slots
    → b ≢ 0
    → occurrences (set slots (object_storage_empty slots) a) b
      ≡ occurrences slots b + (if a == b then 1 else 0)
occurrences-register slots a b h nz =
    ground (arith, occurrences-set slots (object_storage_empty slots) a b h, empty_slot_null slots)

-- Clearing the slot of a live address takes one occurrence of it and of no other object.
pub occurrences-unregister :
    (slots : List ℕ) (a b : ℕ)
    → storage_live slots a ≡ true
    → b ≢ 0
    → occurrences (set slots (object_storage_find slots a) 0) b + (if a == b then 1 else 0)
      ≡ occurrences slots b
occurrences-unregister slots a b h nz =
    let (l, at) = find_slot_at slots a h in
    ground (arith, occurrences-set slots (object_storage_find slots a) 0 b l, at)

-- After a registration the live addresses are those of before and the new one.
pub live-register :
    (slots : List ℕ) (a b : ℕ)
    → object_storage_empty slots < length slots
    → storage_live (set slots (object_storage_empty slots) a) b ≡ true
    → (storage_live slots b ≡ true) ⊎ (a ≡ b)
live-register slots a zero h l =
    absurd (false≢true (sym (null_not_live (set slots (object_storage_empty slots) a)) ∙ l))
live-register slots a (suc b) h l = ground (
  arith,
  live-occurs slots (suc b),
  live-occurs (set slots (object_storage_empty slots) a) (suc b),
  occurrences-register slots a (suc b),
)

-- After an unregistration nothing is live that was not live before.
pub live-unregister :
    (slots : List ℕ) (a b : ℕ)
    → storage_live slots a ≡ true
    → storage_live (set slots (object_storage_find slots a) 0) b ≡ true
    → storage_live slots b ≡ true
live-unregister slots a zero h l =
    absurd (false≢true (sym (null_not_live (set slots (object_storage_find slots a) 0)) ∙ l))
live-unregister slots a (suc b) h l = ground (
  arith,
  live-occurs slots (suc b),
  live-occurs (set slots (object_storage_find slots a) 0) (suc b),
  occurrences-unregister slots a (suc b),
)
