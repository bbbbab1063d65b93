-- ===== src/Ps2.antt =====
-- kernel/ps2.c: the keyboard's scancodes into key events, and the ring that holds the events. The
-- controller's ports are what the caller hands over; its set-up is not modelled.
pub mod Ring
pub mod Decode
mod Tests
use jcos.Prelude.{
  ℕ, zero, suc, ◌+◌, ◌-◌, ◌*◌, ◌/◌, ◌%◌, ◌≡◌, Bool, true, false, not, ◌&&◌, ◌||◌, Option, none,
  some, List, [], ◌∷◌, leb, ◌==◌, if◌then◌else◌, nonzero, get_or, add64,
}
use jcos.KeyEvents.{
  KeyEvent, KeyCode, is_none, key_none, key_character, key_enter, key_backspace, key_tab,
  key_escape, key_up, key_down, key_left, key_right, key_home, key_end, key_delete, key_page_up,
  key_page_down,
}

-- QUEUE_SIZE; `& (QUEUE_SIZE - 1U)` is the remainder by it.
abbrev pub queue_size : ℕ
queue_size = 256

pub record Ps2 : Type 0 where
  pub queue : ℕ → KeyEvent
  pub head : ℕ
  pub tail : ℕ
  pub present : Bool
  pub initialized : Bool
  pub left_shift : Bool
  pub right_shift : Bool
  pub caps_lock : Bool
  pub left_ctrl : Bool
  pub right_ctrl : Bool
  pub left_alt : Bool
  pub right_alt : Bool
  pub extended : Bool
  pub irq_count : ℕ
  pub scancode_count : ℕ
  pub dropped_count : ℕ

-- The two tables of characters by scancode, up to the last entry that is not zero.
abbrev pub unshifted : List ℕ
unshifted =
    0 ∷ 0 ∷ 0x31 ∷ 0x32 ∷ 0x33 ∷ 0x34 ∷ 0x35 ∷ 0x36 ∷ 0x37 ∷ 0x38 ∷ 0x39 ∷ 0x30 ∷ 0x2d ∷ 0x3d ∷ 0x08
    ∷ 0x09 ∷ 0x71 ∷ 0x77 ∷ 0x65 ∷ 0x72 ∷ 0x74 ∷ 0x79 ∷ 0x75 ∷ 0x69 ∷ 0x6f ∷ 0x70 ∷ 0x5b ∷ 0x5d
    ∷ 0x0a ∷ 0 ∷ 0x61 ∷ 0x73 ∷ 0x64 ∷ 0x66 ∷ 0x67 ∷ 0x68 ∷ 0x6a ∷ 0x6b ∷ 0x6c ∷ 0x3b ∷ 0x27 ∷ 0x60
    ∷ 0 ∷ 0x5c ∷ 0x7a ∷ 0x78 ∷ 0x63 ∷ 0x76 ∷ 0x62 ∷ 0x6e ∷ 0x6d ∷ 0x2c ∷ 0x2e ∷ 0x2f ∷ 0 ∷ 0 ∷ 0
    ∷ 0x20 ∷ []

abbrev pub shifted : List ℕ
shifted =
    0 ∷ 0 ∷ 0x21 ∷ 0x40 ∷ 0x23 ∷ 0x24 ∷ 0x25 ∷ 0x5e ∷ 0x26 ∷ 0x2a ∷ 0x28 ∷ 0x29 ∷ 0x5f ∷ 0x2b ∷ 0x08
    ∷ 0x09 ∷ 0x51 ∷ 0x57 ∷ 0x45 ∷ 0x52 ∷ 0x54 ∷ 0x59 ∷ 0x55 ∷ 0x49 ∷ 0x4f ∷ 0x50 ∷ 0x7b ∷ 0x7d
    ∷ 0x0a ∷ 0 ∷ 0x41 ∷ 0x53 ∷ 0x44 ∷ 0x46 ∷ 0x47 ∷ 0x48 ∷ 0x4a ∷ 0x4b ∷ 0x4c ∷ 0x3a ∷ 0x22 ∷ 0x7e
    ∷ 0 ∷ 0x7c ∷ 0x5a ∷ 0x58 ∷ 0x43 ∷ 0x56 ∷ 0x42 ∷ 0x4e ∷ 0x4d ∷ 0x3c ∷ 0x3e ∷ 0x3f ∷ 0 ∷ 0 ∷ 0
    ∷ 0x20 ∷ []

-- The event that the modifiers make of a key.
abbrev pub event_of : Ps2 → KeyCode → ℕ → KeyEvent
event_of p key character = record {
  key = key;
  character = character;
  pressed = true;
  shift = p.left_shift || p.right_shift;
  ctrl = p.left_ctrl || p.right_ctrl;
  alt = p.left_alt || p.right_alt;
}

abbrev pub advance : ℕ → ℕ
advance i = (i + 1) % queue_size

abbrev pub put_event : (ℕ → KeyEvent) → ℕ → KeyEvent → ℕ → KeyEvent
put_event queue i e j = if i == j then e else queue j

unfoldable pub enqueue_event : Ps2 → KeyCode → ℕ → Ps2
enqueue_event p key character =
    if is_none key
    then p
    else if advance p.head == p.tail
    then record p { dropped_count = add64 p.dropped_count 1 }
    else record p {
      queue = put_event p.queue p.head (event_of p key character);
      head = advance p.head;
    }

-- The `switch` over an extended code.
unfoldable pub extended_key : Ps2 → ℕ → Ps2
unfolding enqueue_event
extended_key p code =
    if code == 0x1c
    then enqueue_event p key_enter 0
    else if code == 0x35
    then enqueue_event p key_character 0x2f
    else if code == 0x47
    then enqueue_event p key_home 0
    else if code == 0x48
    then enqueue_event p key_up 0
    else if code == 0x49
    then enqueue_event p key_page_up 0
    else if code == 0x4b
    then enqueue_event p key_left 0
    else if code == 0x4d
    then enqueue_event p key_right 0
    else if code == 0x4f
    then enqueue_event p key_end 0
    else if code == 0x50
    then enqueue_event p key_down 0
    else if code == 0x51
    then enqueue_event p key_page_down 0
    else if code == 0x53
    then enqueue_event p key_delete 0
    else p

-- The character of a code under the modifiers; zero where the code has none.
unfoldable pub character_of : Ps2 → ℕ → ℕ
character_of p code =
    let c = get_or (if p.left_shift || p.right_shift then shifted else unshifted) code 0 in
    if leb 0x61 c && leb c 0x7a && p.caps_lock
    then c - 0x61 + 0x41
    else if leb 0x41 c && leb c 0x5a && p.caps_lock
    then c - 0x41 + 0x61
    else c

unfoldable pub plain_key : Ps2 → ℕ → Ps2
unfolding enqueue_event character_of
plain_key p code =
    if code == 0x1c
    then enqueue_event p key_enter 0
    else if code == 0x0e
    then enqueue_event p key_backspace 0
    else if code == 0x0f
    then enqueue_event p key_tab 0
    else if code == 0x01
    then enqueue_event p key_escape 0
    else if nonzero (character_of p code)
    then enqueue_event p key_character (character_of p code)
    else p

-- The modifier keys; `none` where the code is not one.
unfoldable pub modifier : Ps2 → (extended released : Bool) → ℕ → Option Ps2
modifier p false released code =
    if code == 0x2a
    then some (record p { left_shift = not released })
    else if code == 0x36
    then some (record p { right_shift = not released })
    else if code == 0x1d
    then some (record p { left_ctrl = not released })
    else if code == 0x38
    then some (record p { left_alt = not released })
    else if (code == 0x3a) && not released
    then some (record p { caps_lock = not p.caps_lock })
    else none
modifier p true released code =
    if code == 0x1d
    then some (record p { right_ctrl = not released })
    else if code == 0x38
    then some (record p { right_alt = not released })
    else none

-- A code after its prefix has been taken off.
unfoldable pub decode_key : Ps2 → (extended : Bool) → ℕ → Ps2
unfolding modifier extended_key plain_key
decode_key p extended byte =
    let released = leb 0x80 byte in
    let code = byte % 0x80 in
    elim (modifier p extended released code) [
      | some p' ↦ p'
      | none ↦ if released then p else if extended then extended_key p code else plain_key p code
    ]

unfoldable pub decode_scancode : Ps2 → ℕ → Ps2
unfolding decode_key
decode_scancode p byte =
    let counted = record p { scancode_count = add64 p.scancode_count 1 } in
    if byte == 0xe0
    then record counted { extended = true }
    else if byte == 0xe1
    then record counted { extended = false }
    else decode_key (record counted { extended = false }) p.extended byte

-- The loop of `drain_controller` over what the ports answer, a status and a data byte at a time; it
-- makes 32 rounds at most.
unfoldable pub drain_loop : Ps2 → (rounds : ℕ) → List (ℕ × ℕ) → Ps2
unfolding decode_scancode
drain_loop p zero answers = p
drain_loop p (suc rounds) [] = p
drain_loop p (suc rounds) ((status, value) ∷ answers) =
    let p' = if nonzero (status / 0x20 % 2) then p else decode_scancode p value in
    let rest = drain_loop p' rounds answers in if not (nonzero (status % 2)) then p else rest

unfoldable pub drain_controller : Ps2 → List (ℕ × ℕ) → Ps2
unfolding drain_loop
drain_controller p answers = drain_loop p 32 answers

unfoldable pub ps2_poll : Ps2 → List (ℕ × ℕ) → Ps2
unfolding drain_controller
ps2_poll p answers = if p.initialized then drain_controller p answers else p

unfoldable pub ps2_handle_irq : Ps2 → List (ℕ × ℕ) → Ps2
unfolding drain_controller
ps2_handle_irq p answers =
    let q = record p { irq_count = add64 p.irq_count 1 } in
    if q.initialized then drain_controller q answers else q

-- The event, or `none` for the return value false.
unfoldable pub ps2_get_event : Ps2 → Ps2 × Option KeyEvent
ps2_get_event p =
    if p.tail == p.head
    then (p, none)
    else (record p { tail = advance p.tail }, some (p.queue p.tail))
