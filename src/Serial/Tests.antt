-- ===== src/Serial/Tests.antt =====
-- Concrete bytes through the serial keyboard of kernel/input.c.
use jcos.Prelude.{◌≡◌, refl, List, [], ◌∷◌, arith}
use jcos.Serial.{parse_idle}
use jcos.Serial.Sequences.{
  Stroke, printable, escape_before, delete_3, feed, stream, made, feed-stream,
}

abbrev keys : List Stroke
keys = printable 65 ∷ delete_3 ∷ escape_before 0x1b ∷ printable 66 ∷ []

seven_bytes : stream keys ≡ 65 ∷ 0x1b ∷ 0x5b ∷ 0x33 ∷ 0x7e ∷ 0x1b ∷ 0x1b ∷ 66 ∷ []
unfolding stream
seven_bytes = refl

feed-stream_example :
    ((feed (record { state = parse_idle; parameter = 9 }) (stream keys)).0.state ≡ parse_idle)
    × ((feed (record { state = parse_idle; parameter = 9 }) (stream keys)).1 ≡ made keys)
feed-stream_example =
    feed-stream keys (record { state = parse_idle; parameter = 9 }) refl
      (
        (omega arith, omega arith),
        (tt, ((λ e. absurd (omega (arith, e))), ((omega arith, omega arith), tt))),
      )
