-- ===== src/Ps2/Ring.antt =====
-- The event ring of kernel/ps2.c is a queue of at most 255 events: what is put in comes out in order,
-- and a full ring drops the new event and counts it.
use jcos.Prelude.{
  ℕ, zero, suc, ◌+◌, ◌-◌, ◌%◌, ◌<◌, ◌≡◌, ◌≢◌, refl, ◌∙◌, ap, true, false, Option, none, some, List,
  [], ◌∷◌, ◌++◌, ◌==◌, arith, Bool-cases, inl, inr, length, add64,
}
use jcos.KeyEvents.{KeyEvent, KeyCode, is_none}
use jcos.Ps2.{Ps2, queue_size, advance, put_event, event_of, enqueue_event, ps2_get_event}

-- The `n` events from index `i` on.
pub items : (ℕ → KeyEvent) → (i n : ℕ) → List KeyEvent
items queue i zero = []
items queue i (suc n) = queue i ∷ items queue (advance i) n

abbrev pub used : Ps2 → ℕ
used p = (p.head + queue_size - p.tail) % queue_size

-- The queue that the ring stands for.
pub contents : Ps2 → List KeyEvent
unfolding items
contents p = items p.queue p.tail (used p)

pub record IsRing (p : Ps2) : Type 0 where
  pub head_in : p.head < queue_size
  pub tail_in : p.tail < queue_size

length-items : (queue : ℕ → KeyEvent) (i n : ℕ) → length (items queue i n) ≡ n
unfolding items
length-items queue i zero = refl
length-items queue i (suc n) = ap suc (length-items queue (advance i) n)

-- Writing past the last event appends it.
items-put :
    (queue : ℕ → KeyEvent) (e : KeyEvent) (h i n : ℕ)
    → i < queue_size
    → n < queue_size
    → (i + n) % queue_size ≡ h
    → items (put_event queue h e) i (suc n) ≡ items queue i n ++ (e ∷ [])
unfolding items
items-put queue e h i zero lt room at = let same : (h == i) ≡ true = ground arith in rw same refl
items-put queue e h i (suc n) lt room at =
    let other : (h == i) ≡ false = ground arith in
    let rest = items-put queue e h (advance i) n (omega arith) (omega arith) (omega arith) in
    rw other (ap (λ (es : List KeyEvent). queue i ∷ es) rest)

used-advance :
    (head tail : ℕ)
    → head < queue_size
    → tail < queue_size
    → advance head ≢ tail
    → (advance head + queue_size - tail) % queue_size
      ≡ suc ((head + queue_size - tail) % queue_size)
used-advance head tail h t ne = ground arith

full_used :
    (head tail : ℕ)
    → head < queue_size
    → tail < queue_size
    → advance head ≡ tail
    → (head + queue_size - tail) % queue_size ≡ 255
full_used head tail h t e = ground arith

used-sum :
    (head tail : ℕ)
    → head < queue_size
    → tail < queue_size
    → (tail + (head + queue_size - tail) % queue_size) % queue_size ≡ head
used-sum head tail h t = omega arith

used-tail :
    (head tail : ℕ)
    → head < queue_size
    → tail < queue_size
    → tail ≢ head
    → (head + queue_size - tail) % queue_size
      ≡ suc ((head + queue_size - advance tail) % queue_size)
used-tail head tail h t ne = ground arith

used-empty : (head : ℕ) → (head + queue_size - head) % queue_size ≡ 0
used-empty head = omega arith

-- What becomes of the queue and of the count of dropped events when an event is put in.
pub data Puts (before after : List KeyEvent) (e : KeyEvent) (dropped dropped' : ℕ) : Type 0 where
  queued :
      length before < 255
      → after ≡ before ++ (e ∷ [])
      → dropped' ≡ dropped
      → Puts before after e dropped dropped'
  refused :
      length before ≡ 255
      → after ≡ before
      → dropped' ≡ add64 dropped 1
      → Puts before after e dropped dropped'

-- Putting in a key appends its event, with the modifiers of the moment, while fewer than 255 events
-- wait; on a full ring the queue stays as it is and one more event is counted as dropped. The ring
-- stays one.
pub enqueue_event_lem :
    (p : Ps2) (key : KeyCode) (c : ℕ)
    → IsRing p
    → is_none key ≡ false
    → IsRing (enqueue_event p key c)
      × Puts
          (contents p)
          (contents (enqueue_event p key c))
          (event_of p key c)
          p.dropped_count
          (enqueue_event p key c).dropped_count
unfolding enqueue_event contents
enqueue_event_lem p key c v some_key = elim (Bool-cases (advance p.head == p.tail)) [
  | inl full ↦
      let e : advance p.head ≡ p.tail = ground arith in
      let count =
        length-items p.queue p.tail (used p) ∙ full_used p.head p.tail v.head_in v.tail_in e in
      rw (some_key, full)
        (record { head_in = v.head_in; tail_in = v.tail_in }, refused count refl refl)
  | inr room ↦
      let ne : advance p.head ≢ p.tail = ground arith in
      let one_more = used-advance p.head p.tail v.head_in v.tail_in ne in
      let count : used p < 255 = omega (arith, one_more) in
      let put =
        items-put p.queue (event_of p key c) p.head p.tail (used p) v.tail_in (omega arith)
          (used-sum p.head p.tail v.head_in v.tail_in) in
      rw (some_key, room)
        (
          record { head_in = omega arith; tail_in = v.tail_in },
          queued (rw (length-items p.queue p.tail (used p)) count) (rw one_more put) refl,
        )
]

-- What an extraction does: an empty queue gives nothing, else the first event comes out.
pub data Takes (before after : List KeyEvent) (r : Option KeyEvent) : Type 0 where
  nothing : before ≡ [] → after ≡ before → r ≡ none → Takes before after r
  taken : (e : KeyEvent) → before ≡ e ∷ after → r ≡ some e → Takes before after r

-- Taking an event out of a ring gives nothing exactly where the queue is empty, else its first event,
-- and leaves the rest. The ring stays one.
pub ps2_get_event_lem :
    (p : Ps2)
    → IsRing p
    → IsRing (ps2_get_event p).0
      × Takes (contents p) (contents (ps2_get_event p).0) (ps2_get_event p).1
unfolding ps2_get_event contents items
ps2_get_event_lem p v = elim (Bool-cases (p.tail == p.head)) [
  | inl empty ↦
      let e : p.tail ≡ p.head = ground arith in
      let none_left : used p ≡ 0 = rw e (used-empty p.head) in
      rw empty (v, nothing (ap (λ (n : ℕ). items p.queue p.tail n) none_left) refl refl)
  | inr some_event ↦
      let ne : p.tail ≢ p.head = ground arith in
      let more = used-tail p.head p.tail v.head_in v.tail_in ne in
      rw some_event (
        record { head_in = v.head_in; tail_in = omega arith },
        taken (p.queue p.tail) (ap (λ (n : ℕ). items p.queue p.tail n) more) refl,
      )
]
