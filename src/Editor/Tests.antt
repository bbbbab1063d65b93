-- ===== src/Editor/Tests.antt =====
-- Concrete runs of kernel/shell/editor.c, on a terminal whose cursor always moves.
use jcos.Prelude.{ℕ, ◌+◌, ◌≡◌, refl, true, false, none, arith, ◌⊎◌, ◌<◌, ◌==◌, if◌then◌else◌}
use jcos.Editor.Line.{ShellEditor}
use jcos.Editor.Terminal.{Terminal}
use jcos.KeyEvents.{KeyEvent, key_left}
use jcos.Editor.Keys.{shell_editor_handle, insert_character, erase_before}
use jcos.Editor.Bounds.{IsSafe}
use jcos.Editor.Safety.{shell_editor_handle-IsSafe}
use jcos.Editor.Typing.{insert_character_lem, erase_before-insert_character}

-- The terminal counts what is written to it.
abbrev counter : Terminal ℕ
counter = record {
  cursor_visible = λ t. true;
  cursor_set_visible = λ t v. t;
  cursor_left = λ t. (t, true);
  cursor_right = λ t. (t, true);
  set_accent_color = λ t. t;
  set_default_color = λ t. t;
  putchar = λ t c. t + 1;
  scrollback_line_up = λ t. t;
  scrollback_page_up = λ t. t;
  scrollback_line_down = λ t. t;
  scrollback_page_down = λ t. t;
  scrollback_active = λ t. false;
  scrollback_to_bottom = λ t. t;
}

-- "ac" with the cursor before the second letter.
abbrev line : ShellEditor
line = record {
  buffer = λ i. if i == 0 then 0x61 else if i == 1 then 0x63 else 0;
  length = 2;
  cursor = 1;
  rendered_length = 2;
  rendered_cursor = 1;
  history = λ _ _. 0;
  history_count = 0;
  history_next = 0;
  history_offset = none;
  draft = λ _. 0;
  draft_length = 0;
  draft_saved = false;
  selection_active = false;
  selection_anchor = 1;
  clipboard = λ _. 0;
  clipboard_length = 0;
}

line-IsSafe : IsSafe line
line-IsSafe = ground arith

abbrev select_left : KeyEvent
select_left = record {
  key = key_left;
  character = 0;
  pressed = true;
  shift = true;
  ctrl = false;
  alt = false;
}

shell_editor_handle-IsSafe_example : IsSafe (shell_editor_handle counter 0 line select_left).1
shell_editor_handle-IsSafe_example =
    shell_editor_handle-IsSafe counter 0 line select_left line-IsSafe

insert_character_example :
    ((line.length ≡ 127) × (insert_character counter 0 line 0x62 ≡ (0, line)))
    ⊎ ((line.length < 127)
        × ((insert_character counter 0 line 0x62).1.length ≡ 3)
        × ((insert_character counter 0 line 0x62).1.cursor ≡ 2)
        × ((insert_character counter 0 line 0x62).1.buffer 2 ≡ 0x63))
insert_character_example =
    insert_character_lem counter 0 line 0x62 2 (omega arith) (omega arith) refl

erase_before-insert_character_example :
    let r = insert_character counter 0 line 0x62 in
    ((erase_before counter r.0 r.1).1.length ≡ 2)
    × ((erase_before counter r.0 r.1).1.cursor ≡ 1)
    × ((erase_before counter r.0 r.1).1.buffer 1 ≡ 0x63)
erase_before-insert_character_example =
    erase_before-insert_character counter 0 line 0x62 1 (omega arith) (omega arith) refl refl
      (omega arith)
