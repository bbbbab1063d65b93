-- ===== src/Serial.antt =====
-- The serial keyboard of kernel/input.c: bytes and escape sequences into key events.
pub mod Sequences
mod Tests
use jcos.Prelude.{
  ℕ, zero, suc, ◌+◌, ◌-◌, ◌*◌, ◌≡◌, Bool, true, false, ◌&&◌, ◌||◌, Option, none, some, leb, ◌==◌,
  if◌then◌else◌, u32,
}
use jcos.KeyEvents.{
  KeyEvent, KeyCode, key_none, key_character, key_enter, key_backspace, key_tab, key_escape, key_up,
  key_down, key_left, key_right, key_home, key_end, key_delete, key_page_up, key_page_down,
}

pub data SerialParseState : Type 0 where
  parse_idle parse_escape parse_csi parse_csi_parameter : SerialParseState

-- The two statics of the parser.
pub record Serial : Type 0 where
  pub state : SerialParseState
  pub parameter : ℕ

-- `event_clear`, and the key that is set on it.
abbrev pub key_event : KeyCode → ℕ → KeyEvent
key_event key character = record {
  key = key;
  character = character;
  pressed = true;
  shift = false;
  ctrl = false;
  alt = false;
}

abbrev pub press_of : KeyCode → Option KeyEvent
press_of key = some (key_event key 0)

-- The bytes outside a sequence.
pub plain_byte : Serial → ℕ → Serial × Option KeyEvent
plain_byte s byte =
    if byte == 0x1b
    then (record s { state = parse_escape }, none)
    else if (byte == 0x0d) || (byte == 0x0a)
    then (s, press_of key_enter)
    else if (byte == 0x08) || (byte == 0x7f)
    then (s, press_of key_backspace)
    else if byte == 0x09
    then (s, press_of key_tab)
    else if leb 32 byte && leb byte 126
    then (s, some (key_event key_character byte))
    else (s, none)

-- The key of a sequence that ends in `~`.
pub tilde_key : ℕ → Option KeyEvent
tilde_key parameter =
    if (parameter == 1) || (parameter == 7)
    then press_of key_home
    else if parameter == 3
    then press_of key_delete
    else if (parameter == 4) || (parameter == 8)
    then press_of key_end
    else if parameter == 5
    then press_of key_page_up
    else if parameter == 6
    then press_of key_page_down
    else none

-- The `switch` over the final byte of a sequence.
pub final_key : ℕ → ℕ → Option KeyEvent
unfolding tilde_key
final_key parameter byte =
    if byte == 0x41
    then press_of key_up
    else if byte == 0x42
    then press_of key_down
    else if byte == 0x43
    then press_of key_right
    else if byte == 0x44
    then press_of key_left
    else if byte == 0x48
    then press_of key_home
    else if byte == 0x46
    then press_of key_end
    else if byte == 0x7e
    then tilde_key parameter
    else none

pub sequence_byte : Serial → ℕ → Serial × Option KeyEvent
unfolding final_key
sequence_byte s byte =
    if leb 0x30 byte && leb byte 0x39
    then (
      record { state = parse_csi_parameter; parameter = u32 (s.parameter * 10 + (byte - 0x30)) },
      none,
    )
    else (record s { state = parse_idle }, final_key s.parameter byte)

by_state : Serial → SerialParseState → ℕ → Serial × Option KeyEvent
unfolding plain_byte sequence_byte
by_state s parse_idle byte = plain_byte s byte
by_state s parse_escape byte =
    if byte == 0x5b
    then (record { state = parse_csi; parameter = 0 }, none)
    else (record s { state = parse_idle }, press_of key_escape)
by_state s parse_csi byte = sequence_byte s byte
by_state s parse_csi_parameter byte = sequence_byte s byte

-- `none` is the return value false.
pub serial_event_from_byte : Serial → ℕ → Serial × Option KeyEvent
unfolding by_state
serial_event_from_byte s byte = by_state s s.state byte
