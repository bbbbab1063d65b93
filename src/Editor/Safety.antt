-- ===== src/Editor/Safety.antt =====
-- Every key keeps the indices of kernel/shell/editor.c inside its arrays, whatever the terminal does.
use jcos.Prelude.{
  ℕ, zero, suc, ◌+◌, ◌-◌, ◌<◌, ◌≡◌, refl, Bool, true, false, not, ◌&&◌, Option, none, some, ltb,
  leb, ◌==◌, if◌then◌else◌, nonzero, sub32, add32, arith, Bool-cases, inl, inr, if_both,
}
use jcos.Editor.Line.{
  ShellEditor, store, clear_selection, history_index, delete_selection, available,
}
use jcos.Editor.Terminal.{
  Terminal, redraw, move_left, move_right, move_home, move_end, home_loop, end_loop, before_move,
  after_move,
}
use jcos.KeyEvents.{
  KeyEvent, KeyCode, key_none, key_character, key_enter, key_backspace, key_tab, key_escape, key_up,
  key_down, key_left, key_right, key_home, key_end, key_delete, key_page_up, key_page_down,
}
use jcos.Editor.Keys.{
  is_character, k_ascii_lower, history_load, older, history_up, draft_line, back_to_draft, newer,
  history_down, insert_unselected, insert_bytes, insert_character, erase_before, erase_at,
  cut_selection_or_line, paste_clipboard, submit, press, chord, scroll, shell_editor_handle,
}
use jcos.Editor.Bounds.{
  offset_ok, IsSafe, delete_range-IsSafe, delete_selection-IsSafe, insert_clamped-IsSafe,
  copy-IsSafe, cut-IsSafe, history_store-IsSafe, strlen_copied,
}

module _ {T : Type 0} (term : Terminal T) where
  redraw-IsSafe : (t : T) (e : ShellEditor) → IsSafe e → IsSafe (redraw term t e).1
  unfolding redraw
  redraw-IsSafe t e v = v

  move_left-IsSafe :
      (t : T) (e : ShellEditor) (s : Bool) → IsSafe e → IsSafe (move_left term t e s).1
  unfolding move_left redraw
  move_left-IsSafe t e s v = ground arith

  move_right-IsSafe :
      (t : T) (e : ShellEditor) (s : Bool) → IsSafe e → IsSafe (move_right term t e s).1
  unfolding move_right redraw
  move_right-IsSafe t e s v = ground arith

  before-IsSafe : (e : ShellEditor) (s : Bool) → IsSafe e → IsSafe (before_move term e s)
  before-IsSafe e s v = ground arith

  after-IsSafe : (e : ShellEditor) (s : Bool) → IsSafe e → IsSafe (after_move term e s)
  after-IsSafe e true v = v
  after-IsSafe e false v = v

  home_loop-IsSafe :
      (t : T) (e : ShellEditor) (n : ℕ) → n ≡ e.cursor → IsSafe e → IsSafe (home_loop term t e n).1
  unfolding home_loop
  home_loop-IsSafe t e zero h v = v
  home_loop-IsSafe t e (suc n) h v =
      if_both (λ (r : T × ShellEditor). IsSafe r.1) (term.cursor_left t).1
        (λ _.
          home_loop-IsSafe (term.cursor_left t).0
            (record e { cursor = n; rendered_cursor = sub32 e.rendered_cursor 1 }) n refl
            (ground arith))
        (λ _. v)

  move_home-IsSafe :
      (t : T) (e : ShellEditor) (s : Bool) → IsSafe e → IsSafe (move_home term t e s).1
  unfolding move_home redraw
  move_home-IsSafe t e s v =
      let b = before_move term e s in
      after-IsSafe (home_loop term t b b.cursor).1 s
        (home_loop-IsSafe t b b.cursor refl (before-IsSafe e s v))

  end_loop-IsSafe :
      (t : T) (e : ShellEditor) (n : ℕ)
      → e.cursor + n ≡ e.length
      → IsSafe e
      → IsSafe (end_loop term t e n).1
  unfolding end_loop
  end_loop-IsSafe t e zero h v = v
  end_loop-IsSafe t e (suc n) h v =
      if_both (λ (r : T × ShellEditor). IsSafe r.1) (term.cursor_right t).1
        (λ _.
          end_loop-IsSafe (term.cursor_right t).0
            (record e { cursor = e.cursor + 1; rendered_cursor = add32 e.rendered_cursor 1 }) n
            (omega arith) (v.0, omega arith, v.2, v.3, v.4, v.5, v.6, v.7))
        (λ _. v)

  move_end-IsSafe : (t : T) (e : ShellEditor) (s : Bool) → IsSafe e → IsSafe (move_end term t e s).1
  unfolding move_end redraw
  move_end-IsSafe t e s v =
      let b = before_move term e s in
      let w = before-IsSafe e s v in
      after-IsSafe (end_loop term t b (b.length - b.cursor)).1 s
        (end_loop-IsSafe t b (b.length - b.cursor) (omega (arith, w.1)) w)

  history_load-IsSafe :
      (t : T) (e : ShellEditor) (o : ℕ) → IsSafe e → IsSafe (history_load term t e o).1
  unfolding history_load redraw
  history_load-IsSafe t e o v =
      if_both (λ (r : T × ShellEditor). IsSafe r.1) _ (λ _. v)
        (λ _. (
          strlen_copied e.buffer (e.history (history_index e o)),
          omega arith,
          omega arith,
          v.3,
          v.4,
          v.5,
          v.6,
          v.7,
        ))

  older-IsSafe :
      (e : ShellEditor) (o : Option ℕ)
      → IsSafe e
      → 0 < e.history_count
      → offset_ok o e.history_count ≡ true
      → IsSafe (older term e o).0
  unfolding older
  older-IsSafe e none v h k = ground arith
  older-IsSafe e (some o) v h k = ground arith

  history_up-IsSafe : (t : T) (e : ShellEditor) → IsSafe e → IsSafe (history_up term t e).1
  unfolding history_up
  history_up-IsSafe t e v =
      if_both (λ (r : T × ShellEditor). IsSafe r.1) (not (nonzero e.history_count)) (λ _. v)
        (λ h.
          history_load-IsSafe t (older term e e.history_offset).0 (older term e e.history_offset).1
            (older-IsSafe e e.history_offset v (ground arith) v.7))

  back_to_draft-IsSafe : (e : ShellEditor) → IsSafe e → IsSafe (back_to_draft term e)
  unfolding draft_line
  back_to_draft-IsSafe e v = elim (Bool-cases e.draft_saved) [
    | inl saved ↦ rw saved (v.4, omega arith, omega arith, v.3, v.4, v.5, v.6, refl)
    | inr lost ↦ rw lost (omega arith, omega arith, omega arith, v.3, v.4, v.5, v.6, refl)
  ]

  newer-IsSafe :
      (t : T) (e : ShellEditor) (o : Option ℕ)
      → IsSafe e
      → offset_ok o e.history_count ≡ true
      → IsSafe (newer term t e o).1
  unfolding newer
  newer-IsSafe t e none v h = v
  newer-IsSafe t e (some zero) v h =
      redraw-IsSafe t (back_to_draft term e) (back_to_draft-IsSafe e v)
  newer-IsSafe t e (some (suc o)) v h =
      history_load-IsSafe t (record e { history_offset = some o }) o
        (v.0, v.1, v.2, v.3, v.4, v.5, v.6, ground arith)

  insert_unselected-IsSafe :
      (t : T) (e : ShellEditor) (bytes : ℕ → ℕ) (count : ℕ)
      → IsSafe e
      → IsSafe (insert_unselected term t e bytes count).1
  unfolding insert_unselected redraw
  insert_unselected-IsSafe t e bytes count v =
      let room = if ltb (available e) count then available e else count in
      elim (Bool-cases (not (nonzero room))) [
        | inl full ↦ rw full v
        | inr some_room ↦ rw some_room (insert_clamped-IsSafe e bytes room v (ground arith))
      ]

  insert_bytes-IsSafe :
      (t : T) (e : ShellEditor) (bytes : ℕ → ℕ) (count : ℕ)
      → IsSafe e
      → IsSafe (insert_bytes term t e bytes count).1
  unfolding insert_bytes
  insert_bytes-IsSafe t e bytes count v =
      let e' = if e.selection_active then (delete_selection e).0 else e in
      let w : IsSafe e' =
        if_both IsSafe e.selection_active (λ _. delete_selection-IsSafe e v) (λ _. v) in
      elim (Bool-cases (not (nonzero count))) [
        | inl nothing ↦ rw nothing v
        | inr something ↦ rw something (insert_unselected-IsSafe t e' bytes count w)
      ]

  erase_before-IsSafe : (t : T) (e : ShellEditor) → IsSafe e → IsSafe (erase_before term t e).1
  unfolding erase_before redraw
  erase_before-IsSafe t e v =
      ground (arith, delete_selection-IsSafe e v, delete_range-IsSafe e (e.cursor - 1) e.cursor v)

  erase_at-IsSafe : (t : T) (e : ShellEditor) → IsSafe e → IsSafe (erase_at term t e).1
  unfolding erase_at redraw
  erase_at-IsSafe t e v =
      ground (arith, delete_selection-IsSafe e v, delete_range-IsSafe e e.cursor (e.cursor + 1) v)

  paste-IsSafe : (t : T) (e : ShellEditor) → IsSafe e → IsSafe (paste_clipboard term t e).1
  unfolding paste_clipboard
  paste-IsSafe t e v =
      let e' = if e.selection_active then (delete_selection e).0 else e in
      let w : IsSafe e' =
        if_both IsSafe e.selection_active (λ _. delete_selection-IsSafe e v) (λ _. v) in
      elim (Bool-cases (not (nonzero e.clipboard_length))) [
        | inl empty ↦ rw empty v
        | inr full ↦ rw full (insert_unselected-IsSafe t e' e.clipboard e.clipboard_length w)
      ]

  submit-IsSafe : (t : T) (e : ShellEditor) → IsSafe e → IsSafe (submit term t e).1
  unfolding submit
  submit-IsSafe t e v =
      let r = redraw term t (clear_selection e) in
      let w : IsSafe r.1 =
        redraw-IsSafe t (clear_selection e) (v.0, v.1, v.1, v.3, v.4, v.5, v.6, v.7) in
      let m = (move_end term r.0 r.1 false).1 in
      let stored =
        history_store-IsSafe (record m { buffer = store m.buffer m.length 0 })
          (move_end-IsSafe r.0 r.1 false w) in
      (stored.0, stored.1, stored.2, stored.3, stored.4, stored.5, stored.6, refl)

  press-IsSafe :
      (t : T) (e : ShellEditor) (event : KeyEvent) (key : KeyCode)
      → IsSafe e
      → IsSafe (press term t e event key).1
  unfolding press insert_character history_down
  press-IsSafe t e event key_character v =
      elim (Bool-cases (leb 32 event.character && leb event.character 126)) [
        | inl printable ↦ rw printable (insert_bytes-IsSafe t e (λ _. event.character) 1 v)
        | inr other ↦ rw other v
      ]
  press-IsSafe t e event key_backspace v = erase_before-IsSafe t e v
  press-IsSafe t e event key_delete v = erase_at-IsSafe t e v
  press-IsSafe t e event key_left v = move_left-IsSafe t e event.shift v
  press-IsSafe t e event key_right v = move_right-IsSafe t e event.shift v
  press-IsSafe t e event key_home v = move_home-IsSafe t e event.shift v
  press-IsSafe t e event key_end v = move_end-IsSafe t e event.shift v
  press-IsSafe t e event key_up v = history_up-IsSafe t e v
  press-IsSafe t e event key_down v = newer-IsSafe t e e.history_offset v v.7
  press-IsSafe t e event key_enter v = submit-IsSafe t e v
  press-IsSafe t e event key_none v = v
  press-IsSafe t e event key_tab v = v
  press-IsSafe t e event key_escape v = v
  press-IsSafe t e event key_page_up v = v
  press-IsSafe t e event key_page_down v = v

  chord-IsSafe :
      (t : T) (e : ShellEditor) (event : KeyEvent) → IsSafe e → IsSafe (chord term t e event).1
  unfolding chord cut_selection_or_line redraw
  chord-IsSafe t e event v =
      elim (Bool-cases (is_character event.key && event.ctrl && event.shift)) [
        | inr plain ↦ rw plain (press-IsSafe t e event event.key v)
        | inl held ↦ elim (Bool-cases (k_ascii_lower event.character == 0x63)) [
          | inl copies ↦ rw (held, copies) (copy-IsSafe e v)
          | inr no_copy ↦ elim (Bool-cases (k_ascii_lower event.character == 0x78)) [
            | inl cuts ↦ rw (held, no_copy, cuts) (cut-IsSafe e v)
            | inr no_cut ↦ elim (Bool-cases (k_ascii_lower event.character == 0x76)) [
              | inl pastes ↦ rw (held, no_copy, no_cut, pastes) (paste-IsSafe t e v)
              | inr other ↦ rw (held, no_copy, no_cut, other) (press-IsSafe t e event event.key v)
            ]
          ]
        ]
      ]

  scroll-IsSafe :
      (t : T) (e : ShellEditor) (event : KeyEvent) (key : KeyCode)
      → IsSafe e
      → IsSafe (scroll term t e event key).1
  unfolding scroll
  scroll-IsSafe t e event key_page_up v = v
  scroll-IsSafe t e event key_page_down v = v
  scroll-IsSafe t e event key v = chord-IsSafe _ e event v

-- Every key event keeps the editor in bounds, whatever the terminal answers: the line, the draft and
-- the clipboard leave room for their terminators, the cursor and the selection lie in the line, and
-- the history indices lie in the history.
pub shell_editor_handle-IsSafe :
    {T : Type 0} (term : Terminal T) (t : T) (e : ShellEditor) (event : KeyEvent)
    → IsSafe e
    → IsSafe (shell_editor_handle term t e event).1
unfolding shell_editor_handle
shell_editor_handle-IsSafe term t e event v = elim (Bool-cases event.pressed) [
  | inr released ↦ rw released v
  | inl pressed ↦ rw pressed (scroll-IsSafe term t e event event.key v)
]
