-- ===== src/Ps2/Decode.antt =====
-- Whatever bytes the controller delivers, the event ring of kernel/ps2.c stays a ring.
use jcos.Prelude.{
  ℕ, zero, suc, ◌/◌, ◌%◌, ◌≡◌, Bool, true, false, not, some, List, [], ◌∷◌, leb, ◌==◌,
  if◌then◌else◌, nonzero, arith, Option-cases, inl, inr, if_both, add64,
}
use jcos.KeyEvents.{
  KeyCode, is_none, key_character, key_enter, key_backspace, key_tab, key_escape, key_up, key_down,
  key_left, key_right, key_home, key_end, key_delete, key_page_up, key_page_down,
}
use jcos.Ps2.{
  Ps2, advance, enqueue_event, extended_key, plain_key, character_of, modifier, decode_key,
  decode_scancode, drain_loop, drain_controller, ps2_poll, ps2_handle_irq,
}
use jcos.Ps2.Ring.{IsRing}

enqueue-IsRing : (p : Ps2) (key : KeyCode) (c : ℕ) → IsRing p → IsRing (enqueue_event p key c)
unfolding enqueue_event
enqueue-IsRing p key c v =
    if_both IsRing (is_none key) (λ _. v)
      (λ _.
        if_both IsRing (advance p.head == p.tail)
          (λ _. record { head_in = v.head_in; tail_in = v.tail_in })
          (λ _. record { head_in = omega arith; tail_in = v.tail_in }))

-- A conditional press keeps the ring where the rest does.
press_or :
    (p : Ps2) (b : Bool) (key : KeyCode) (c : ℕ) {rest : Ps2}
    → IsRing p
    → IsRing rest
    → IsRing (if b then enqueue_event p key c else rest)
press_or p b key c v w = if_both IsRing b (λ _. enqueue-IsRing p key c v) (λ _. w)

extended-IsRing : (p : Ps2) (code : ℕ) → IsRing p → IsRing (extended_key p code)
unfolding extended_key
extended-IsRing p code v = press_or p (code == 0x1c) key_enter 0 v (
    press_or p (code == 0x35) key_character 0x2f v (
      press_or p (code == 0x47) key_home 0 v (
        press_or p (code == 0x48) key_up 0 v (
          press_or p (code == 0x49) key_page_up 0 v (
            press_or p (code == 0x4b) key_left 0 v (
              press_or p (code == 0x4d) key_right 0 v (
                press_or p (code == 0x4f) key_end 0 v (
                  press_or p (code == 0x50) key_down 0 v (
                    press_or p (code == 0x51) key_page_down 0 v
                      (press_or p (code == 0x53) key_delete 0 v v))))))))))

plain-IsRing : (p : Ps2) (code : ℕ) → IsRing p → IsRing (plain_key p code)
unfolding plain_key
plain-IsRing p code v = press_or p (code == 0x1c) key_enter 0 v (
    press_or p (code == 0x0e) key_backspace 0 v (
      press_or p (code == 0x0f) key_tab 0 v (
        press_or p (code == 0x01) key_escape 0 v
          (press_or p (nonzero (character_of p code)) key_character (character_of p code) v v))))

-- A modifier key leaves the ring.
modifier_keeps :
    (p : Ps2) (extended released : Bool) (code : ℕ) {q : Ps2}
    → modifier p extended released code ≡ some q
    → (q.head ≡ p.head) × (q.tail ≡ p.tail)
unfolding modifier
modifier_keeps p true released code e = ground arith
modifier_keeps p false released code e = ground arith

decode_key-IsRing :
    (p : Ps2) (extended : Bool) (byte : ℕ) → IsRing p → IsRing (decode_key p extended byte)
unfolding decode_key
decode_key-IsRing p extended byte v =
    elim (Option-cases (modifier p extended (leb 0x80 byte) (byte % 0x80))) [
      | inr (q, e) ↦
          let (head, tail) = modifier_keeps p extended (leb 0x80 byte) (byte % 0x80) e in
          rw (e, decode_key) (record { head_in = rw head v.head_in; tail_in = rw tail v.tail_in })
      | inl key ↦
          rw (key, decode_key)
            (if_both IsRing (leb 0x80 byte) (λ _. v)
              (λ _.
                if_both IsRing extended (λ _. extended-IsRing p (byte % 0x80) v)
                  (λ _. plain-IsRing p (byte % 0x80) v)))
    ]

decode-IsRing : (p : Ps2) (byte : ℕ) → IsRing p → IsRing (decode_scancode p byte)
unfolding decode_scancode
decode-IsRing p byte v =
    let counted = record p { scancode_count = add64 p.scancode_count 1 } in
    if_both IsRing (byte == 0xe0) (λ _. record { head_in = v.head_in; tail_in = v.tail_in })
      (λ _.
        if_both IsRing (byte == 0xe1) (λ _. record { head_in = v.head_in; tail_in = v.tail_in })
          (λ _.
            decode_key-IsRing (record counted { extended = false }) p.extended byte
              (record { head_in = v.head_in; tail_in = v.tail_in })))

drain-IsRing :
    (p : Ps2) (rounds : ℕ) (answers : List (ℕ × ℕ))
    → IsRing p
    → IsRing (drain_loop p rounds answers)
unfolding drain_loop
drain-IsRing p zero answers v = v
drain-IsRing p (suc rounds) [] v = v
drain-IsRing p (suc rounds) ((status, value) ∷ answers) v =
    let p' = if nonzero (status / 0x20 % 2) then p else decode_scancode p value in
    if_both IsRing (not (nonzero (status % 2))) (λ _. v)
      (λ _.
        drain-IsRing p' rounds answers
          (if_both IsRing (nonzero (status / 0x20 % 2)) (λ _. v) (λ _. decode-IsRing p value v)))

-- An interrupt and a poll keep the ring of events a ring, whatever the controller's ports answer: its
-- indices stay inside the queue's array.
pub ps2_keeps_IsRing :
    (p : Ps2) (answers : List (ℕ × ℕ))
    → IsRing p
    → IsRing (ps2_handle_irq p answers) × IsRing (ps2_poll p answers)
unfolding ps2_handle_irq ps2_poll drain_controller
ps2_keeps_IsRing p answers v =
    let q = record p { irq_count = add64 p.irq_count 1 } in
    let w : IsRing q = record { head_in = v.head_in; tail_in = v.tail_in } in
    (
      if_both IsRing p.initialized (λ _. drain-IsRing q 32 answers w) (λ _. w),
      if_both IsRing p.initialized (λ _. drain-IsRing p 32 answers v) (λ _. v),
    )
