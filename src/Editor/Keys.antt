-- ===== src/Editor/Keys.antt =====
-- The editing commands of kernel/shell/editor.c that draw, and `shell_editor_handle`.
use jcos.Prelude.{
  ℕ, zero, suc, ◌+◌, ◌-◌, Bool, true, false, not, ◌&&◌, Option, none, some, ltb, leb, ◌==◌,
  if◌then◌else◌, nonzero,
}
use jcos.KeyEvents.{
  KeyCode, key_character, key_enter, key_backspace, key_up, key_down, key_left, key_right, key_home,
  key_end, key_delete, key_page_up, key_page_down, KeyEvent,
}
use jcos.Editor.Line.{
  ShellEditor, store, copy_line, k_strlen, clear_selection, leave_history, history_store,
  history_index, delete_range, delete_selection, insert_clamped, available, copy_selection_or_line,
  cut,
}
use jcos.Editor.Terminal.{Terminal, redraw, move_left, move_right, move_home, move_end}

pub data ShellEditorResult : Type 0 where
  shell_continue shell_submit : ShellEditorResult

-- `k_ascii_lower` of kernel/lib.c.
abbrev pub k_ascii_lower : ℕ → ℕ
k_ascii_lower c = if leb 0x41 c && leb c 0x5a then c - 0x41 + 0x61 else c

abbrev pub is_character : KeyCode → Bool
is_character key_character = true
is_character _ = false

module _ {T : Type 0} (term : Terminal T) where
  unfoldable pub history_load : T → ShellEditor → ℕ → T × ShellEditor
  unfolding copy_line k_strlen redraw
  history_load t e offset =
      if leb e.history_count offset
      then (t, e)
      else let buffer = copy_line e.buffer (e.history (history_index e offset)) in
        redraw term t (
          clear_selection
            (record e { buffer = buffer; length = k_strlen buffer; cursor = k_strlen buffer }))

  -- The editor of `history_up` before it loads, and the offset that it loads.
  unfoldable pub older : ShellEditor → Option ℕ → ShellEditor × ℕ
  unfolding copy_line
  older e none = (
    record e {
      draft = copy_line e.draft e.buffer;
      draft_length = e.length;
      draft_saved = true;
      history_offset = some 0;
    },
    0,
  )
  older e (some offset) =
      if ltb (offset + 1) e.history_count
      then (record e { history_offset = some (offset + 1) }, offset + 1)
      else (e, offset)

  unfoldable pub history_up : T → ShellEditor → T × ShellEditor
  unfolding older history_load
  history_up t e =
      if not (nonzero e.history_count)
      then (t, e)
      else let (e', offset) = older e e.history_offset in history_load t e' offset

  -- The line that `history_down` comes back to.
  unfoldable pub draft_line : ShellEditor → ShellEditor
  unfolding copy_line
  draft_line e =
      if e.draft_saved
      then record e { buffer = copy_line e.buffer e.draft; length = e.draft_length }
      else record e { buffer = store e.buffer 0 0; length = 0 }

  abbrev pub back_to_draft : ShellEditor → ShellEditor
  back_to_draft e =
      let d = record e { history_offset = none } in
      let l = draft_line d in clear_selection (record l { cursor = l.length; draft_saved = false })

  unfoldable pub newer : T → ShellEditor → Option ℕ → T × ShellEditor
  unfolding history_load redraw draft_line
  newer t e none = (t, e)
  newer t e (some zero) = redraw term t (back_to_draft e)
  newer t e (some (suc offset)) = history_load t (record e { history_offset = some offset }) offset

  unfoldable pub history_down : T → ShellEditor → T × ShellEditor
  unfolding newer
  history_down t e = newer t e e.history_offset

  -- `insert_bytes` once the selection is gone.
  unfoldable pub insert_unselected : T → ShellEditor → (ℕ → ℕ) → ℕ → T × ShellEditor
  unfolding insert_clamped redraw
  insert_unselected t e bytes count =
      let room = if ltb (available e) count then available e else count in
      if not (nonzero room) then (t, e) else redraw term t (insert_clamped e bytes room)

  unfoldable pub insert_bytes : T → ShellEditor → (ℕ → ℕ) → ℕ → T × ShellEditor
  unfolding insert_unselected delete_selection
  insert_bytes t e bytes count =
      if not (nonzero count)
      then (t, e)
      else insert_unselected t (if e.selection_active then (delete_selection e).0 else e) bytes
          count

  unfoldable pub insert_character : T → ShellEditor → ℕ → T × ShellEditor
  unfolding insert_bytes
  insert_character t e c = insert_bytes t e (λ _. c) 1

  unfoldable pub erase_before : T → ShellEditor → T × ShellEditor
  unfolding delete_selection delete_range redraw
  erase_before t e =
      if (delete_selection e).1
      then redraw term t (delete_selection e).0
      else if not (nonzero e.cursor)
      then (t, e)
      else redraw term t (delete_range e (e.cursor - 1) e.cursor)

  unfoldable pub erase_at : T → ShellEditor → T × ShellEditor
  unfolding delete_selection delete_range redraw
  erase_at t e =
      if (delete_selection e).1
      then redraw term t (delete_selection e).0
      else if leb e.length e.cursor
      then (t, e)
      else redraw term t (delete_range e e.cursor (e.cursor + 1))

  unfoldable pub cut_selection_or_line : T → ShellEditor → T × ShellEditor
  unfolding cut redraw
  cut_selection_or_line t e = redraw term t (cut e)

  unfoldable pub paste_clipboard : T → ShellEditor → T × ShellEditor
  unfolding insert_bytes
  paste_clipboard t e =
      if not (nonzero e.clipboard_length)
      then (t, e)
      else insert_bytes t e e.clipboard e.clipboard_length

  -- The case of KEY_ENTER.
  unfoldable pub submit : T → ShellEditor → T × ShellEditor
  unfolding redraw move_end history_store
  submit t e =
      let (t1, e1) = redraw term t (clear_selection e) in
      let (t2, e2) = move_end term t1 e1 false in
      let stored = history_store (record e2 { buffer = store e2.buffer e2.length 0 }) in
      (t2, leave_history stored)

  abbrev pub continued : T × ShellEditor → T × ShellEditor × ShellEditorResult
  continued r = (r.0, r.1, shell_continue)

  abbrev pub submitted : T × ShellEditor → T × ShellEditor × ShellEditorResult
  submitted r = (r.0, r.1, shell_submit)

  -- The `switch` over the key.
  unfoldable pub press : T → ShellEditor → KeyEvent → KeyCode → T × ShellEditor × ShellEditorResult
  unfolding insert_character erase_before erase_at history_up history_down submit
  press t e event key_character =
      if leb 32 event.character && leb event.character 126
      then continued (insert_character t e event.character)
      else (t, e, shell_continue)
  press t e event key_backspace = continued (erase_before t e)
  press t e event key_delete = continued (erase_at t e)
  press t e event key_left = continued (move_left term t e event.shift)
  press t e event key_right = continued (move_right term t e event.shift)
  press t e event key_home = continued (move_home term t e event.shift)
  press t e event key_end = continued (move_end term t e event.shift)
  press t e event key_up = continued (history_up t e)
  press t e event key_down = continued (history_down t e)
  press t e event key_enter = submitted (submit t e)
  press t e event _ = (t, e, shell_continue)

  -- The clipboard chords, then the switch.
  unfoldable pub chord : T → ShellEditor → KeyEvent → T × ShellEditor × ShellEditorResult
  unfolding press cut_selection_or_line paste_clipboard
  chord t e event =
      let lower = k_ascii_lower event.character in
      if is_character event.key && event.ctrl && event.shift
      then (if lower == 0x63
          then (t, copy_selection_or_line e, shell_continue)
          else if lower == 0x78
          then continued (cut_selection_or_line t e)
          else if lower == 0x76
          then continued (paste_clipboard t e)
          else press t e event event.key)
      else press t e event event.key

  -- The keys that scroll, and the rest on a terminal that is back at its bottom.
  unfoldable pub scroll : T → ShellEditor → KeyEvent → KeyCode → T × ShellEditor × ShellEditorResult
  unfolding chord
  scroll t e event key_page_up = (
    if event.ctrl then term.scrollback_line_up t else term.scrollback_page_up t,
    e,
    shell_continue,
  )
  scroll t e event key_page_down = (
    if event.ctrl then term.scrollback_line_down t else term.scrollback_page_down t,
    e,
    shell_continue,
  )
  scroll t e event _ =
      chord (if term.scrollback_active t then term.scrollback_to_bottom t else t) e event

  unfoldable pub shell_editor_handle :
      T → ShellEditor → KeyEvent → T × ShellEditor × ShellEditorResult
  unfolding scroll
  shell_editor_handle t e event =
      if not event.pressed then (t, e, shell_continue) else scroll t e event event.key
