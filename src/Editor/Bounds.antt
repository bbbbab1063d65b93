-- ===== src/Editor/Bounds.antt =====
-- The bounds of kernel/shell/editor.c, kept by the operations that do not draw.
use jcos.Prelude.{
  ℕ, zero, suc, ◌+◌, ◌≤◌, ◌<◌, ◌≡◌, refl, Bool, true, not, Option, none, some, ltb, ◌==◌,
  if◌then◌else◌, nonzero, arith, Bool-cases, inl, inr, if_both,
}
use jcos.Editor.Line.{
  ShellEditor, store, copy_line, copy_from, k_strlen, strlen_from, history_store, delete_range,
  delete_selection, insert_clamped, copy_selection_or_line, cut, selection_start, selection_end,
}

abbrev pub offset_ok : Option ℕ → ℕ → Bool
offset_ok none count = true
offset_ok (some offset) count = ltb offset count

-- The lengths leave room for a terminator, and every index lies in its array.
abbrev pub IsSafe : ShellEditor → Type 0
IsSafe e =
    (e.length ≤ 127)
    × (e.cursor ≤ e.length)
    × (e.selection_anchor ≤ e.length)
    × (e.clipboard_length ≤ 127)
    × (e.draft_length ≤ 127)
    × (e.history_count ≤ 64)
    × (e.history_next < 64)
    × (offset_ok e.history_offset e.history_count ≡ true)

pub delete_range-IsSafe :
    (e : ShellEditor) (start end : ℕ) → IsSafe e → IsSafe (delete_range e start end)
unfolding delete_range
delete_range-IsSafe e start end v = ground arith

pub delete_selection-IsSafe : (e : ShellEditor) → IsSafe e → IsSafe (delete_selection e).0
unfolding delete_selection
delete_selection-IsSafe e v =
    ground (arith, delete_range-IsSafe e (selection_start e) (selection_end e))

pub insert_clamped-IsSafe :
    (e : ShellEditor) (bytes : ℕ → ℕ) (count : ℕ)
    → IsSafe e
    → e.length + count ≤ 127
    → IsSafe (insert_clamped e bytes count)
unfolding insert_clamped
insert_clamped-IsSafe e bytes count v h = ground arith

pub copy-IsSafe : (e : ShellEditor) → IsSafe e → IsSafe (copy_selection_or_line e)
unfolding copy_selection_or_line
copy-IsSafe e v = ground arith

pub cut-IsSafe : (e : ShellEditor) → IsSafe e → IsSafe (cut e)
unfolding cut
cut-IsSafe e v = ground (arith, copy-IsSafe e v, delete_selection-IsSafe (copy_selection_or_line e))

pub offset_ok_grows :
    (o : Option ℕ) (c : ℕ)
    → offset_ok o c ≡ true
    → offset_ok o (if ltb c 64 then c + 1 else c) ≡ true
offset_ok_grows none c h = refl
offset_ok_grows (some o) c h = ground arith

pub history_store-IsSafe : (e : ShellEditor) → IsSafe e → IsSafe (history_store e)
unfolding history_store
history_store-IsSafe e v =
    if_both IsSafe (not (nonzero e.length)) (λ _. v)
      (λ _.
        if_both IsSafe _ (λ _. v)
          (λ _. (
            v.0,
            v.1,
            v.2,
            v.3,
            v.4,
            ground arith,
            omega arith,
            offset_ok_grows e.history_offset e.history_count v.7,
          )))

-- A copied line ends within its array.
pub copy_from-ends :
    (dst src : ℕ → ℕ) (left i : ℕ)
    → (j : ℕ) × (i ≤ j) × (j ≤ i + left) × (copy_from dst src left i j ≡ 0)
unfolding copy_from
copy_from-ends dst src zero i = (i, omega arith, omega arith, ground arith)
copy_from-ends dst src (suc left) i = elim (Bool-cases (nonzero (src i))) [
  | inl more ↦
      let (j, lo, hi, end) = copy_from-ends (store dst i (src i)) src left (i + 1) in
      (j, omega arith, omega arith, rw more end)
  | inr last ↦ (i, omega arith, omega arith, rw last (ground arith))
]

pub strlen_from-le : (s : ℕ → ℕ) (fuel i j : ℕ) → s j ≡ 0 → i ≤ j → strlen_from s fuel i ≤ j
unfolding strlen_from
strlen_from-le s zero i j h lo = lo
strlen_from-le s (suc fuel) i j h lo = elim (Bool-cases (i == j)) [
  | inl here ↦ let e : i ≡ j = ground arith in rw e (rw h (omega arith))
  | inr there ↦ ground (arith, strlen_from-le s fuel (i + 1) j h)
]

pub strlen_copied : (dst src : ℕ → ℕ) → k_strlen (copy_line dst src) ≤ 127
unfolding k_strlen copy_line
strlen_copied dst src =
    let (j, lo, hi, end) = copy_from-ends dst src 127 0 in
    omega (arith, strlen_from-le (copy_from dst src 127 0) 128 0 j end lo)
