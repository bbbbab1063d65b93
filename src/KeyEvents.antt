-- ===== src/KeyEvents.antt =====
-- kernel/key_event.h: the key events that the keyboards make and the shell reads.
use jcos.Prelude.{ℕ, Bool, true, false}

pub data KeyCode : Type 0 where
  key_none key_character key_enter key_backspace key_tab key_escape key_up key_down : KeyCode
  key_left key_right key_home key_end key_delete key_page_up key_page_down : KeyCode

pub record KeyEvent : Type 0 where
  pub key : KeyCode
  pub character : ℕ
  pub pressed : Bool
  pub shift : Bool
  pub ctrl : Bool
  pub alt : Bool

abbrev pub is_none : KeyCode → Bool
is_none key_none = true
is_none _ = false
