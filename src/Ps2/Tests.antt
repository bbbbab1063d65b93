-- ===== src/Ps2/Tests.antt =====
-- A concrete keyboard of kernel/ps2.c, with the ring's indices about to wrap.
use jcos.Prelude.{ℕ, refl, true, false, arith, List, [], ◌∷◌}
use jcos.KeyEvents.{key_up, key_none}
use jcos.Ps2.{Ps2, ps2_handle_irq, ps2_poll, enqueue_event, ps2_get_event, event_of}
use jcos.Ps2.Decode.{ps2_keeps_IsRing}
use jcos.Ps2.Ring.{IsRing, Puts, Takes, contents, enqueue_event_lem, ps2_get_event_lem}

abbrev keyboard : Ps2
keyboard = record {
  queue = λ _. record {
    key = key_none;
    character = 0;
    pressed = false;
    shift = false;
    ctrl = false;
    alt = false;
  };
  head = 255;
  tail = 254;
  present = true;
  initialized = true;
  left_shift = true;
  right_shift = false;
  caps_lock = false;
  left_ctrl = false;
  right_ctrl = false;
  left_alt = false;
  right_alt = false;
  extended = false;
  irq_count = 0;
  scancode_count = 0;
  dropped_count = 0;
}

keyboard-IsRing : IsRing keyboard
keyboard-IsRing = record { head_in = omega arith; tail_in = omega arith }

enqueue_event_example :
    IsRing (enqueue_event keyboard key_up 0)
    × Puts
        (contents keyboard)
        (contents (enqueue_event keyboard key_up 0))
        (event_of keyboard key_up 0)
        0
        (enqueue_event keyboard key_up 0).dropped_count
enqueue_event_example = enqueue_event_lem keyboard key_up 0 keyboard-IsRing refl

ps2_get_event_example :
    IsRing (ps2_get_event keyboard).0
    × Takes (contents keyboard) (contents (ps2_get_event keyboard).0) (ps2_get_event keyboard).1
ps2_get_event_example = ps2_get_event_lem keyboard keyboard-IsRing

-- An extended prefix, a home key, and a byte of the auxiliary device.
abbrev answers : List (ℕ × ℕ)
answers = (1, 0xe0) ∷ (1, 0x47) ∷ (0x21, 0xaa) ∷ []

ps2_keeps_IsRing_example :
    IsRing (ps2_handle_irq keyboard answers) × IsRing (ps2_poll keyboard answers)
ps2_keeps_IsRing_example = ps2_keeps_IsRing keyboard answers keyboard-IsRing
