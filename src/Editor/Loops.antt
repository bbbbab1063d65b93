-- ===== src/Editor/Loops.antt =====
-- What the copying loops of kernel/shell/editor.c leave at each index.
use jcos.Prelude.{ℕ, zero, suc, ◌+◌, ◌-◌, ◌<◌, ◌≡◌, ◌∙◌, ◌&&◌, ltb, leb, if◌then◌else◌, arith}
use jcos.Editor.Line.{store, shift_up, shift_down, put_bytes}

-- One step of the move.
shifted :
    (buffer : ℕ → ℕ) (low i j : ℕ)
    → low < i
    → (if ltb low j && leb j (i - 1)
        then store buffer i (buffer (i - 1)) (j - 1)
        else store buffer i (buffer (i - 1)) j)
      ≡ (if ltb low j && leb j i then buffer (j - 1) else buffer j)
shifted buffer low i j h = ground arith

-- Moving the `left` characters from `low` on up by one.
pub shift_up_lem :
    (buffer : ℕ → ℕ) (left low i j : ℕ)
    → i ≡ low + left
    → shift_up buffer 1 left i j ≡ (if ltb low j && leb j i then buffer (j - 1) else buffer j)
unfolding shift_up
shift_up_lem buffer zero low i j h = ground arith
shift_up_lem buffer (suc left) low i j h =
    let below : i - 1 ≡ low + left = omega arith in
    let top : i + 1 - 1 ≡ i = omega arith in
    rw top (
      shift_up_lem (store buffer i (buffer (i - 1))) left low (i - 1) j below
      ∙ shifted buffer low i j (omega arith))

pub shift_down_lem :
    (buffer : ℕ → ℕ) (count left i j : ℕ)
    → 0 < count
    → shift_down buffer count left i j
      ≡ (if leb i j && ltb j (i + left) then buffer (j + count) else buffer j)
unfolding shift_down
shift_down_lem buffer count zero i j c = ground arith
shift_down_lem buffer count (suc left) i j c =
    ground (arith, shift_down_lem (store buffer i (buffer (i + count))) count left (i + 1) j c)

pub put_bytes_lem :
    (buffer bytes : ℕ → ℕ) (at left i j : ℕ)
    → put_bytes buffer bytes at left i j
      ≡ (if leb (at + i) j && ltb j (at + i + left) then bytes (j - at) else buffer j)
unfolding put_bytes
put_bytes_lem buffer bytes at zero i j = ground arith
put_bytes_lem buffer bytes at (suc left) i j =
    ground (arith, put_bytes_lem (store buffer (at + i) (bytes i)) bytes at left (i + 1) j)
