-- ===== src/Editor/Typing.antt =====
-- Typing in kernel/shell/editor.c: what a character key does to the line, and that backspace undoes it.
use jcos.Prelude.{
  ℕ, ◌+◌, ◌-◌, ◌≤◌, ◌<◌, ◌≡◌, refl, ◌∙◌, ap, false, not, ◌&&◌, ◌||◌, ltb, leb, ◌==◌, if◌then◌else◌,
  nonzero, arith, true, ◌⊎◌, inl, inr, Bool-cases,
}
use jcos.Editor.Line.{
  ShellEditor, delete_range, delete_selection, insert_clamped, available, shift_up,
}
use jcos.Editor.Terminal.{Terminal, redraw}
use jcos.Editor.Keys.{insert_character, insert_bytes, insert_unselected, erase_before}
use jcos.Editor.Loops.{shift_up_lem, shift_down_lem, put_bytes_lem}

-- The line with `c` inserted at index `at`, and its terminator.
abbrev pub inserted : (ℕ → ℕ) → (length at c : ℕ) → ℕ → ℕ
inserted buffer length at c j =
    if ltb j at
    then buffer j
    else if j == at
    then c
    else if leb j length
    then buffer (j - 1)
    else if j == length + 1
    then 0
    else buffer j

module _ (e : ShellEditor) (c : ℕ) where
  abbrev typed : ShellEditor
  typed = insert_clamped e (λ _. c) 1

  typed_fields :
      (typed.length ≡ e.length + 1)
      × (typed.cursor ≡ e.cursor + 1)
      × (typed.selection_active ≡ false)
  unfolding insert_clamped
  typed_fields = (refl, refl, refl)

  typed_buffer :
      (j : ℕ) → e.cursor ≤ e.length → typed.buffer j ≡ inserted e.buffer e.length e.cursor c j
  unfolding insert_clamped
  typed_buffer j h = ground (
    arith,
    put_bytes_lem (shift_up e.buffer 1 (e.length - e.cursor) e.length) (λ _. c) e.cursor 1 0 j,
    shift_up_lem e.buffer (e.length - e.cursor) e.cursor e.length j (omega arith),
  )

  -- The key reaches the insertion: there is room, and nothing is selected.
  insert_reaches :
      {T : Type 0} (term : Terminal T) (t : T)
      → e.length < 127
      → e.selection_active ≡ false
      → insert_character term t e c ≡ redraw term t typed
  unfolding insert_character insert_bytes insert_unselected
  insert_reaches term t h s =
      let room : (if ltb (available e) 1 then available e else 1) ≡ 1 = ground arith in
      rw s (rw room refl)

-- On a full line the key does nothing.
insert_full :
    {T : Type 0} (term : Terminal T) (t : T) (e : ShellEditor) (c : ℕ)
    → e.length ≡ 127
    → e.selection_active ≡ false
    → insert_character term t e c ≡ (t, e)
unfolding insert_character insert_bytes insert_unselected
insert_full term t e c full s =
    let none_left : not (nonzero (if ltb (available e) 1 then available e else 1)) ≡ true =
      ground arith in
    rw s (rw none_left refl)

-- A character typed with nothing selected, on a line of at most 127 characters with the cursor in
-- it: on a full line nothing happens; on any other it goes in at the cursor, which moves past it,
-- and the rest of the line moves up, its terminator with it.
pub insert_character_lem :
    {T : Type 0} (term : Terminal T) (t : T) (e : ShellEditor) (c j : ℕ)
    → e.cursor ≤ e.length
    → e.length ≤ 127
    → e.selection_active ≡ false
    → ((e.length ≡ 127) × (insert_character term t e c ≡ (t, e)))
      ⊎ ((e.length < 127)
          × ((insert_character term t e c).1.length ≡ e.length + 1)
          × ((insert_character term t e c).1.cursor ≡ e.cursor + 1)
          × ((insert_character term t e c).1.buffer j ≡ inserted e.buffer e.length e.cursor c j))
unfolding redraw
insert_character_lem term t e c j h fits s = elim (Bool-cases (ltb e.length 127)) [
  | inl y ↦
      let room : e.length < 127 = ground arith in
      let (length, cursor, selection) = typed_fields e c in
      inr (rw (insert_reaches e c term t room s) (room, length, cursor, typed_buffer e c j h))
  | inr n ↦ let full : e.length ≡ 127 = ground arith in inl (full, insert_full term t e c full s)
]

-- Backspace with nothing selected takes out the character before the cursor.
erase_before_lem :
    {T : Type 0} (term : Terminal T) (t : T) (e : ShellEditor)
    → 0 < e.cursor
    → e.cursor ≤ e.length
    → e.selection_active ≡ false
    → (erase_before term t e).1 ≡ (redraw term t (delete_range e (e.cursor - 1) e.cursor)).1
unfolding erase_before delete_selection
erase_before_lem term t e p h s =
    let some_cursor : not (nonzero e.cursor) ≡ false = ground arith in rw s (rw some_cursor refl)

deleted_one :
    (e : ShellEditor) (j : ℕ)
    → 0 < e.cursor
    → e.cursor ≤ e.length
    → ((delete_range e (e.cursor - 1) e.cursor).length ≡ e.length - 1)
      × ((delete_range e (e.cursor - 1) e.cursor).cursor ≡ e.cursor - 1)
      × ((delete_range e (e.cursor - 1) e.cursor).buffer j
          ≡ (if leb (e.cursor - 1) j && ltb j e.length then e.buffer (j + 1) else e.buffer j))
unfolding delete_range
deleted_one e j p h =
    let one : e.cursor - (e.cursor - 1) ≡ 1 = omega arith in
    let some_range : (leb e.cursor (e.cursor - 1) || ltb e.length e.cursor) ≡ false =
      ground arith in
    let shifted =
      shift_down_lem e.buffer 1 (e.length + 1 - e.cursor) (e.cursor - 1) j (omega arith) in
    rw (some_range, one) (refl, refl, ground (arith, shifted))

-- The editor after the key, with its drawing noted.
abbrev drawn : {T : Type 0} → Terminal T → T → ShellEditor → ℕ → ShellEditor
drawn term t e c = (redraw term t (typed e c)).1

drawn_fields :
    {T : Type 0} (term : Terminal T) (t : T) (e : ShellEditor) (c j : ℕ)
    → e.cursor ≤ e.length
    → ((drawn term t e c).length ≡ e.length + 1)
      × ((drawn term t e c).cursor ≡ e.cursor + 1)
      × ((drawn term t e c).selection_active ≡ false)
      × ((drawn term t e c).buffer j ≡ inserted e.buffer e.length e.cursor c j)
unfolding redraw
drawn_fields term t e c j h =
    let (length, cursor, selection) = typed_fields e c in
    (length, cursor, selection, typed_buffer e c j h)

redraw_keeps :
    {T : Type 0} (term : Terminal T) (t : T) (e : ShellEditor)
    → ((redraw term t e).1.length ≡ e.length)
      × ((redraw term t e).1.cursor ≡ e.cursor)
      × ((redraw term t e).1.buffer ≡ e.buffer)
unfolding redraw
redraw_keeps term t e = (refl, refl, refl)

-- Taking the inserted character out again gives the old line, up to its terminator.
undone :
    (buffer : ℕ → ℕ) (length cursor c j : ℕ) {dl dc x y : ℕ}
    → dl ≡ length + 1
    → dc ≡ cursor + 1
    → y ≡ inserted buffer length cursor c j
    → x ≡ inserted buffer length cursor c (j + 1)
    → buffer length ≡ 0
    → j ≤ length
    → cursor ≤ length
    → (if leb (dc - 1) j && ltb j dl then x else y) ≡ buffer j
undone buffer length cursor c j l k at next end b h = ground arith

-- Backspace undoes a character key: from a line that is terminated and has room, with nothing
-- selected, typing a character and then erasing before the cursor leaves the line, its terminator
-- and the cursor as they were, on any terminal.
pub erase_before-insert_character :
    {T : Type 0} (term : Terminal T) (t : T) (e : ShellEditor) (c j : ℕ)
    → e.cursor ≤ e.length
    → e.length < 127
    → e.selection_active ≡ false
    → e.buffer e.length ≡ 0
    → j ≤ e.length
    → let r = insert_character term t e c in
      ((erase_before term r.0 r.1).1.length ≡ e.length)
      × ((erase_before term r.0 r.1).1.cursor ≡ e.cursor)
      × ((erase_before term r.0 r.1).1.buffer j ≡ e.buffer j)
erase_before-insert_character term t e c j h room s end b =
    let (length, cursor, selection, at) = drawn_fields term t e c j h in
    let next = (drawn_fields term t e c (j + 1) h).3 in
    let d = drawn term t e c in
    let r = redraw term t (typed e c) in
    let erased =
      erase_before_lem term r.0 d (omega (arith, cursor)) (omega (arith, cursor, length))
        selection in
    let (l, k, m) = deleted_one d j (omega (arith, cursor)) (omega (arith, cursor, length)) in
    let (rl, rc, rb) = redraw_keeps term r.0 (delete_range d (d.cursor - 1) d.cursor) in
    rw (insert_reaches e c term t room s) (
      rw erased (
        omega (arith, rl, l, length),
        omega (arith, rc, k, cursor),
        ap (λ (f : ℕ → ℕ). f j) rb
            ∙ m
            ∙ undone e.buffer e.length e.cursor c j length cursor at next end b h,
      ))
