-- ===== src/Serial/Sequences.antt =====
-- Whole streams of bytes through the serial keyboard of kernel/input.c.
use jcos.Prelude.{
  ℕ, ◌≤◌, ◌≡◌, ◌≢◌, refl, ap, true, false, ◌&&◌, ◌||◌, Option, none, some, List, [], ◌∷◌, ◌++◌, leb,
  ◌==◌, arith, ◌∙◌, sym, subst,
}
use jcos.KeyEvents.{
  KeyEvent, key_character, key_enter, key_backspace, key_tab, key_escape, key_up, key_down,
  key_left, key_right, key_home, key_end, key_delete, key_page_up, key_page_down,
}
use jcos.Serial.{
  Serial, SerialParseState, parse_idle, serial_event_from_byte, key_event, plain_byte,
}

abbrev pub events : Option KeyEvent → List KeyEvent → List KeyEvent
events none es = es
events (some e) es = e ∷ es

-- The events of a run of bytes, and the parser after it.
pub feed : Serial → List ℕ → Serial × List KeyEvent
unfolding serial_event_from_byte
feed s [] = (s, [])
feed s (b ∷ bs) =
    let r = serial_event_from_byte s b in let rest = feed r.0 bs in (rest.0, events r.1 rest.1)

-- The keys that a terminal codes, with each coding that the parser knows. An escape by itself is known
-- at the byte after it, which it swallows: `escape_before` is the escape with that byte.
pub data Stroke : Type 0 where
  printable escape_before : (byte : ℕ) → Stroke
  carriage_return line_feed delete_byte backspace_byte tab arrow_up arrow_down arrow_right
        arrow_left :
      Stroke
  home_letter end_letter home_1 home_7 delete_3 end_4 end_8 page_up_5 page_down_6 : Stroke

-- The bytes of a key.
unfoldable pub sent_for : Stroke → List ℕ
sent_for (printable c) = c ∷ []
sent_for (escape_before b) = 0x1b ∷ b ∷ []
sent_for carriage_return = 0x0d ∷ []
sent_for line_feed = 0x0a ∷ []
sent_for delete_byte = 0x7f ∷ []
sent_for backspace_byte = 0x08 ∷ []
sent_for tab = 0x09 ∷ []
sent_for arrow_up = 0x1b ∷ 0x5b ∷ 0x41 ∷ []
sent_for arrow_down = 0x1b ∷ 0x5b ∷ 0x42 ∷ []
sent_for arrow_right = 0x1b ∷ 0x5b ∷ 0x43 ∷ []
sent_for arrow_left = 0x1b ∷ 0x5b ∷ 0x44 ∷ []
sent_for home_letter = 0x1b ∷ 0x5b ∷ 0x48 ∷ []
sent_for end_letter = 0x1b ∷ 0x5b ∷ 0x46 ∷ []
sent_for home_1 = 0x1b ∷ 0x5b ∷ 0x31 ∷ 0x7e ∷ []
sent_for home_7 = 0x1b ∷ 0x5b ∷ 0x37 ∷ 0x7e ∷ []
sent_for delete_3 = 0x1b ∷ 0x5b ∷ 0x33 ∷ 0x7e ∷ []
sent_for end_4 = 0x1b ∷ 0x5b ∷ 0x34 ∷ 0x7e ∷ []
sent_for end_8 = 0x1b ∷ 0x5b ∷ 0x38 ∷ 0x7e ∷ []
sent_for page_up_5 = 0x1b ∷ 0x5b ∷ 0x35 ∷ 0x7e ∷ []
sent_for page_down_6 = 0x1b ∷ 0x5b ∷ 0x36 ∷ 0x7e ∷ []

-- The event of a key.
pub made_by : Stroke → KeyEvent
made_by (printable c) = key_event key_character c
made_by (escape_before b) = key_event key_escape 0
made_by carriage_return = key_event key_enter 0
made_by line_feed = key_event key_enter 0
made_by delete_byte = key_event key_backspace 0
made_by backspace_byte = key_event key_backspace 0
made_by tab = key_event key_tab 0
made_by arrow_up = key_event key_up 0
made_by arrow_down = key_event key_down 0
made_by arrow_right = key_event key_right 0
made_by arrow_left = key_event key_left 0
made_by home_letter = key_event key_home 0
made_by end_letter = key_event key_end 0
made_by home_1 = key_event key_home 0
made_by home_7 = key_event key_home 0
made_by delete_3 = key_event key_delete 0
made_by end_4 = key_event key_end 0
made_by end_8 = key_event key_end 0
made_by page_up_5 = key_event key_page_up 0
made_by page_down_6 = key_event key_page_down 0

-- A printable byte is ASCII, and the byte after a lone escape does not open a sequence.
abbrev pub IsSent : Stroke → Type 0
IsSent (printable c) = (32 ≤ c) × (c ≤ 126)
IsSent (escape_before b) = b ≢ 0x5b
IsSent stroke = Unit

abbrev pub AllSent : List Stroke → Type 0
AllSent [] = Unit
AllSent (k ∷ ks) = IsSent k × AllSent ks

-- A run of keys: the bytes that come, and the events that they are to make.
unfoldable pub stream : List Stroke → List ℕ
unfolding sent_for
stream [] = []
stream (k ∷ ks) = sent_for k ++ stream ks

pub made : List Stroke → List KeyEvent
unfolding made_by
made [] = []
made (k ∷ ks) = made_by k ∷ made ks

events-append :
    (o : Option KeyEvent) (es fs : List KeyEvent) → events o (es ++ fs) ≡ events o es ++ fs
events-append none es fs = refl
events-append (some e) es fs = refl

-- What comes after a run of bytes is read by the parser that the run leaves.
feed-append :
    (s : Serial) (xs ys : List ℕ)
    → feed s (xs ++ ys) ≡ ((feed (feed s xs).0 ys).0, (feed s xs).1 ++ (feed (feed s xs).0 ys).1)
unfolding feed
feed-append s [] ys = refl
feed-append s (x ∷ xs) ys =
    let r = serial_event_from_byte s x in
    ap (λ (q : Serial × List KeyEvent). (q.0, events r.1 q.1)) (feed-append r.0 xs ys)
    ∙ ap (λ (es : List KeyEvent). ((feed (feed r.0 xs).0 ys).0, es))
        (events-append r.1 (feed r.0 xs).1 (feed (feed r.0 xs).0 ys).1)

plain_printable :
    (s : Serial) (c : ℕ) → 32 ≤ c → c ≤ 126 → plain_byte s c ≡ (s, some (key_event key_character c))
unfolding plain_byte
plain_printable s c lo hi =
    let not_escape : (c == 0x1b) ≡ false = ground arith in
    let not_enter : ((c == 0x0d) || (c == 0x0a)) ≡ false = ground arith in
    let not_erase : ((c == 0x08) || (c == 0x7f)) ≡ false = ground arith in
    let not_tab : (c == 0x09) ≡ false = ground arith in
    let printable : (leb 32 c && leb c 126) ≡ true = ground arith in
    rw (not_escape, not_enter, not_erase, not_tab, printable) refl

-- One key, from a parser between two keys: its event, and the parser is between two keys again.
abbrev Reads : Stroke → Serial × List KeyEvent → Type 0
Reads k r = (r.0.state ≡ parse_idle) × (r.1 ≡ made_by k ∷ [])

one_key :
    (k : Stroke) (p : ℕ)
    → IsSent k
    → Reads k (feed (record { state = parse_idle; parameter = p }) (sent_for k))
unfolding feed sent_for made_by
one_key (printable c) p (lo, hi) =
    let typed = plain_printable (record { state = parse_idle; parameter = p }) c lo hi in
    (
      ap (λ (r : Serial × Option KeyEvent). r.0.state) typed,
      ap (λ (r : Serial × Option KeyEvent). events r.1 []) typed,
    )
one_key (escape_before b) p n =
    let other : (b == 0x5b) ≡ false = ground arith in (rw other refl, rw other refl)
one_key k p sent = (refl, refl)

in_state : ℕ → SerialParseState → Serial
in_state p state = record { state = state; parameter = p }

one_key_idle :
    (k : Stroke) (s : Serial) → s.state ≡ parse_idle → IsSent k → Reads k (feed s (sent_for k))
unfolding in_state
one_key_idle k s idle sent =
    subst (λ (x : Serial). Reads k (feed x (sent_for k))) (sym (ap (in_state s.parameter) idle))
      (one_key k s.parameter sent)

-- From a parser between two keys, the bytes of any run of keys are read as exactly those keys' events, in
-- their order, and the parser is between two keys again. The printable bytes are ASCII, and the byte that
-- follows a lone escape, and is swallowed with it, is not `[`.
pub feed-stream :
    (ks : List Stroke) (s : Serial)
    → s.state ≡ parse_idle
    → AllSent ks
    → ((feed s (stream ks)).0.state ≡ parse_idle) × ((feed s (stream ks)).1 ≡ made ks)
unfolding feed stream made
feed-stream [] s idle sent = (idle, refl)
feed-stream (k ∷ ks) s idle (one, rest) =
    let (again, event) = one_key_idle k s idle one in
    let (after, later) = feed-stream ks (feed s (sent_for k)).0 again rest in
    rw (feed-append s (sent_for k) (stream ks)) (after, rw (event, later) refl)
