-- ===== src/Pmm/Bits.antt =====
-- The bitmap of kernel/pmm.c read bit by bit: what `bitmap_set` and `bitmap_clear` do to each bit.
use jcos.Prelude.{
  ℕ, zero, suc, ◌+◌, ◌*◌, ◌/◌, ◌%◌, ◌<◌, ◌≡◌, refl, Bool, true, false, ◌&&◌, arith, ◌==◌,
  Bool-cases, ap, sym, ◌≤◌, ◌∙◌, inl, inr, ==_iff, if◌then◌else◌, u8,
}
use jcos.Pmm.{test_bit, set_bit, clear_bit, store, bitmap_used, bitmap_set, bitmap_clear}

-- A law that evaluation finds true at each code from `lo` on, for `count` codes.
tabulated : ℕ → ℕ → (ℕ → Bool) → Bool
tabulated lo zero law = true
tabulated lo (suc count) law =
    let rest = tabulated (lo + 1) count law in if law lo then rest else false

-- Reading the table at one code.
look_up :
    (lo count code : ℕ) (law : ℕ → Bool)
    → lo ≤ code
    → code < lo + count
    → tabulated lo count law ≡ true
    → law code ≡ true
unfolding tabulated
look_up lo zero code law from to table = absurd (omega arith)
look_up lo (suc count) code law from to table = elim (Bool-cases (lo == code)) [
  | inl here ↦ let e : lo ≡ code = ground arith in rw (sym e) (ground arith)
  | inr later ↦ look_up (lo + 1) count code law (ground arith) (omega arith) (ground arith)
]

same : Bool → Bool → Bool
same true b = b
same false b = if b then false else true

same_sound : (a b : Bool) → same a b ≡ true → a ≡ b
unfolding same
same_sound a b h = ground arith

-- A byte, the bit written and the bit read, in one number.
abbrev code : ℕ → ℕ → ℕ → ℕ
code b k j = b * 64 + k * 8 + j

abbrev set_law : ℕ → ℕ → ℕ → Bool
set_law b k j = same (test_bit (set_bit b k) j) (if k == j then true else test_bit b j)

abbrev clear_law : ℕ → ℕ → ℕ → Bool
clear_law b k j = same (test_bit (clear_bit b k) j) (if k == j then false else test_bit b j)

set_table : tabulated 0 16384 (λ x. set_law (x / 64) (x / 8 % 8) (x % 8)) ≡ true
unfolding tabulated same test_bit set_bit clear_bit
set_table = refl

clear_table : tabulated 0 16384 (λ x. clear_law (x / 64) (x / 8 % 8) (x % 8)) ≡ true
unfolding tabulated same test_bit set_bit clear_bit
clear_table = refl

code_byte : (b k j : ℕ) → k < 8 → j < 8 → code b k j / 64 ≡ b
code_byte b k j hk hj = omega arith

code_written : (b k j : ℕ) → k < 8 → j < 8 → code b k j / 8 % 8 ≡ k
code_written b k j hk hj = omega arith

code_read : (b k j : ℕ) → k < 8 → j < 8 → code b k j % 8 ≡ j
code_read b k j hk hj = omega arith

from_table :
    (law : ℕ → ℕ → ℕ → Bool)
    → tabulated 0 16384 (λ x. law (x / 64) (x / 8 % 8) (x % 8)) ≡ true
    → (b k j : ℕ) → b < 256
    → k < 8
    → j < 8
    → law b k j ≡ true
from_table law table b k j hb hk hj =
    rw (code_byte b k j hk hj, code_written b k j hk hj, code_read b k j hk hj) at
      (look_up 0 16384 (code b k j) _ (omega arith) (omega arith) table)

test-set_bit :
    (b k j : ℕ)
    → b < 256
    → k < 8
    → j < 8
    → test_bit (set_bit b k) j ≡ (if k == j then true else test_bit b j)
test-set_bit b k j hb hk hj = same_sound _ _ (from_table set_law set_table b k j hb hk hj)

test-clear_bit :
    (b k j : ℕ)
    → b < 256
    → k < 8
    → j < 8
    → test_bit (clear_bit b k) j ≡ (if k == j then false else test_bit b j)
test-clear_bit b k j hb hk hj = same_sound _ _ (from_table clear_law clear_table b k j hb hk hj)

u8-set_bit : (b k : ℕ) → u8 (set_bit b k) ≡ set_bit b k
unfolding set_bit
u8-set_bit b k = omega arith

u8-clear_bit : (b k : ℕ) → u8 (clear_bit b k) ≡ clear_bit b k
unfolding clear_bit
u8-clear_bit b k = omega arith

same_place : (i j : ℕ) → ((i / 8 == j / 8) && (i % 8 == j % 8)) ≡ (i == j)
same_place i j = ground arith

-- A write at bit `k` of byte `a`, seen from bit `l` of byte `c`.
module _ (write : ℕ → ℕ → ℕ) (v : Bool)
    (law : (b k l : ℕ)
      → b < 256
      → k < 8
      → l < 8
      → test_bit (write b k) l ≡ (if k == l then v else test_bit b l))
    (small : (b k : ℕ) → u8 (write b k) ≡ write b k) where
  test-store :
      (m : ℕ → ℕ) (a k c l : ℕ)
      → k < 8
      → l < 8
      → test_bit (u8 (store m a (write (u8 (m a)) k) c)) l
        ≡ (if (a == c) && (k == l) then v else test_bit (u8 (m c)) l)
  test-store m a k c l hk hl = elim (Bool-cases (a == c)) [
    | inl e ↦ rw (e, small, law (u8 (m a)) k l (omega arith) hk hl, (==_iff a c).0 e)
    | inr n ↦ rw n
  ]

  used-store :
      (m : ℕ → ℕ) (i j : ℕ)
      → test_bit (u8 (store m (i / 8) (write (u8 (m (i / 8))) (i % 8)) (j / 8))) (j % 8)
        ≡ (if i == j then v else test_bit (u8 (m (j / 8))) (j % 8))
  used-store m i j =
      test-store m (i / 8) (i % 8) (j / 8) (j % 8) (omega arith) (omega arith)
      ∙ ap (λ t. if t then v else test_bit (u8 (m (j / 8))) (j % 8)) (same_place i j)

-- Setting a bit changes that bit alone.
pub used-set :
    (m : ℕ → ℕ) (i j : ℕ)
    → bitmap_used (bitmap_set m i) j ≡ (if i == j then true else bitmap_used m j)
unfolding bitmap_used bitmap_set
used-set = used-store set_bit true test-set_bit u8-set_bit

-- So does clearing one.
pub used-clear :
    (m : ℕ → ℕ) (i j : ℕ)
    → bitmap_used (bitmap_clear m i) j ≡ (if i == j then false else bitmap_used m j)
unfolding bitmap_used bitmap_clear
used-clear = used-store clear_bit false test-clear_bit u8-clear_bit
