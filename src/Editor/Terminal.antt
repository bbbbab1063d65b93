-- ===== src/Editor/Terminal.antt =====
-- The terminal that kernel/shell/editor.c draws on, and the drawing. The terminal is any state with
-- the operations of kernel/terminal.h that the editor calls.
use jcos.Prelude.{
  ℕ, zero, suc, ◌+◌, ◌-◌, Bool, true, false, not, ltb, if◌then◌else◌, nonzero, sub32, add32,
}
use jcos.Editor.Line.{
  ShellEditor, selected_at, clear_selection, selection_begin_if_needed, selection_finish_move,
}

-- A cursor move answers whether the cursor moved.
pub record Terminal (T : Type 0) : Type 0 where
  pub cursor_visible : T → Bool
  pub cursor_set_visible : T → Bool → T
  pub cursor_left : T → T × Bool
  pub cursor_right : T → T × Bool
  pub set_accent_color : T → T
  pub set_default_color : T → T
  pub putchar : T → ℕ → T
  pub scrollback_line_up : T → T
  pub scrollback_page_up : T → T
  pub scrollback_line_down : T → T
  pub scrollback_page_down : T → T
  pub scrollback_active : T → Bool
  pub scrollback_to_bottom : T → T

module _ {T : Type 0} (term : Terminal T) where
  -- Up to `n` moves to the left, until one fails.
  unfoldable pub rewind : T → ℕ → T
  rewind t zero = t
  rewind t (suc n) =
      let moved = term.cursor_left t in
      let rest = rewind moved.0 n in if moved.1 then rest else moved.0

  -- The characters from index `i` on.
  unfoldable pub draw_text : T → ShellEditor → (left i : ℕ) → T
  unfolding selected_at
  draw_text t e zero i = t
  draw_text t e (suc left) i =
      draw_text
        (term.putchar
          (if selected_at e i then term.set_accent_color t else term.set_default_color t)
          (e.buffer i))
        e left (i + 1)

  unfoldable pub draw_spaces : T → ℕ → T
  draw_spaces t zero = t
  draw_spaces t (suc left) = draw_spaces (term.putchar t 0x20) left

  -- What `redraw` does to the terminal.
  unfoldable pub repaint : T → ShellEditor → T
  unfolding rewind draw_text draw_spaces
  repaint t e =
      let hidden = term.cursor_set_visible t false in
      let start = rewind hidden e.rendered_cursor in
      let text = term.set_default_color (draw_text start e e.length 0) in
      let display_length = if ltb e.rendered_length e.length then e.length else e.rendered_length in
      let padded = draw_spaces text (display_length - e.length) in
      let placed = rewind padded (display_length - e.cursor) in
      if term.cursor_visible t then term.cursor_set_visible placed true else placed

  unfoldable pub redraw : T → ShellEditor → T × ShellEditor
  unfolding repaint
  redraw t e = (repaint t e, record e { rendered_length = e.length; rendered_cursor = e.cursor })

  -- The prologue and epilogue that the moves share.
  abbrev pub before_move : ShellEditor → Bool → ShellEditor
  before_move e selecting = if selecting then selection_begin_if_needed e else clear_selection e

  abbrev pub after_move : ShellEditor → Bool → ShellEditor
  after_move e selecting = if selecting then selection_finish_move e else e

  unfoldable pub move_left : T → ShellEditor → Bool → T × ShellEditor
  unfolding redraw
  move_left t e selecting =
      if not (nonzero e.cursor)
      then (t, e)
      else let e1 = before_move e selecting in
        let moved = term.cursor_left t in
        let e2 =
          if moved.1
          then record e1 { cursor = e1.cursor - 1; rendered_cursor = sub32 e1.rendered_cursor 1 }
          else e1 in
        redraw moved.0 (after_move e2 selecting)

  unfoldable pub move_right : T → ShellEditor → Bool → T × ShellEditor
  unfolding redraw
  move_right t e selecting =
      if not (ltb e.cursor e.length)
      then (t, e)
      else let e1 = before_move e selecting in
        let moved = term.cursor_right t in
        let e2 =
          if moved.1
          then record e1 { cursor = e1.cursor + 1; rendered_cursor = add32 e1.rendered_cursor 1 }
          else e1 in
        redraw moved.0 (after_move e2 selecting)

  -- The loop of `move_home`; the cursor is the number of rounds left.
  unfoldable pub home_loop : T → ShellEditor → ℕ → T × ShellEditor
  home_loop t e zero = (t, e)
  home_loop t e (suc n) =
      let moved = term.cursor_left t in
      let rest =
        home_loop moved.0 (record e { cursor = n; rendered_cursor = sub32 e.rendered_cursor 1 })
          n in
      if moved.1 then rest else (moved.0, e)

  unfoldable pub move_home : T → ShellEditor → Bool → T × ShellEditor
  unfolding home_loop redraw
  move_home t e selecting =
      let e1 = before_move e selecting in
      let (t', e2) = home_loop t e1 e1.cursor in redraw t' (after_move e2 selecting)

  -- The loop of `move_end`, with `n` characters left to the right of the cursor.
  unfoldable pub end_loop : T → ShellEditor → ℕ → T × ShellEditor
  end_loop t e zero = (t, e)
  end_loop t e (suc n) =
      let moved = term.cursor_right t in
      let rest =
        end_loop moved.0
          (record e { cursor = e.cursor + 1; rendered_cursor = add32 e.rendered_cursor 1 }) n in
      if moved.1 then rest else (moved.0, e)

  unfoldable pub move_end : T → ShellEditor → Bool → T × ShellEditor
  unfolding end_loop redraw
  move_end t e selecting =
      let e1 = before_move e selecting in
      let (t', e2) = end_loop t e1 (e1.length - e1.cursor) in redraw t' (after_move e2 selecting)
