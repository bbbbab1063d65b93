-- ===== src/Endpoints/Mailbox.antt =====
-- The mailbox of kernel/endpoint.c: what one send puts in, the next receive takes out.
use jcos.Prelude.{
  ℕ, zero, suc, ◌≤◌, ◌≡◌, refl, sym, ◌∙◌, ap, inl, inr, Bool-cases, true, false, not, ◌||◌, some,
  List, [], ◌∷◌, arith,
}
use jcos.Kernel.{Kernel, IpcMessage}
use jcos.Endpoints.{
  endpoint_try_send, endpoint_try_receive, endpoint_message_ready, endpoint_usable, copy_words,
  put_endpoint, empty_message,
}

-- The first `count` words, and zeroes up to `n` of them.
abbrev pub first_words : ℕ → ℕ → List ℕ → List ℕ
first_words zero count ws = []
first_words (suc n) zero ws = 0 ∷ first_words n zero []
first_words (suc n) (suc count) [] = 0 ∷ first_words n count []
first_words (suc n) (suc count) (w ∷ ws) = w ∷ first_words n count ws

copied :
    (ws : List ℕ) (count : ℕ)
    → count ≤ 4
    → copy_words (0 ∷ 0 ∷ 0 ∷ 0 ∷ []) ws count 0 ≡ first_words 4 count ws
unfolding copy_words
copied ws zero h = refl
copied [] (suc zero) h = refl
copied (a ∷ ws) (suc zero) h = refl
copied [] (suc (suc zero)) h = refl
copied (a ∷ []) (suc (suc zero)) h = refl
copied (a ∷ b ∷ ws) (suc (suc zero)) h = refl
copied [] (suc (suc (suc zero))) h = refl
copied (a ∷ []) (suc (suc (suc zero))) h = refl
copied (a ∷ b ∷ []) (suc (suc (suc zero))) h = refl
copied (a ∷ b ∷ c ∷ ws) (suc (suc (suc zero))) h = refl
copied [] (suc (suc (suc (suc zero)))) h = refl
copied (a ∷ []) (suc (suc (suc (suc zero)))) h = refl
copied (a ∷ b ∷ []) (suc (suc (suc (suc zero)))) h = refl
copied (a ∷ b ∷ c ∷ []) (suc (suc (suc (suc zero)))) h = refl
copied (a ∷ b ∷ c ∷ d ∷ ws) (suc (suc (suc (suc zero)))) h = refl
copied ws (suc (suc (suc (suc (suc n))))) h = absurd (omega arith)

-- The mailbox with a message in it.
abbrev filled : Kernel → ℕ → IpcMessage → Kernel
filled k endpoint message =
    put_endpoint k endpoint
      (record (k.endpoints endpoint) { message = message; message_ready = true })

-- The message that a send stores.
abbrev pub sent_message : IpcMessage → IpcMessage
sent_message m = record {
  words = copy_words (0 ∷ 0 ∷ 0 ∷ 0 ∷ []) m.words m.word_count 0;
  word_count = m.word_count;
}

-- What a send that succeeds has tested, and the state it leaves.
record Sent (k : Kernel) (endpoint : ℕ) (m : IpcMessage) (k' : Kernel) : Type 0 where
  pub usable : endpoint_usable k endpoint ≡ true
  pub opened : (k.endpoints endpoint).closed ≡ false
  pub count : m.word_count ≤ 4
  pub leaves : k' ≡ filled k endpoint (sent_message m)

sent :
    (k k' : Kernel) (endpoint : ℕ) (m : IpcMessage)
    → endpoint_try_send k endpoint m ≡ (k', true)
    → Sent k endpoint m k'
unfolding endpoint_try_send
sent k k' endpoint m e = record {
  usable = ground arith;
  opened = ground arith;
  count = ground arith;
  leaves = ground arith;
}

usable_filled :
    (k : Kernel) (endpoint : ℕ) (m : IpcMessage)
    → endpoint_usable (filled k endpoint m) endpoint ≡ endpoint_usable k endpoint
unfolding endpoint_usable put_endpoint
usable_filled k endpoint m = ground arith

module _ (k : Kernel) (endpoint : ℕ) (m n : IpcMessage) (usable : endpoint_usable k endpoint ≡ true)
    (opened : (k.endpoints endpoint).closed ≡ false) where
  ready : endpoint_usable (filled k endpoint m) endpoint ≡ true
  ready = usable_filled k endpoint m ∙ usable

  filled_fields :
      (((filled k endpoint m).endpoints endpoint).closed ≡ false)
      × (((filled k endpoint m).endpoints endpoint).message_ready ≡ true)
      × (((filled k endpoint m).endpoints endpoint).message ≡ m)
  unfolding put_endpoint
  filled_fields = (ground arith, ground arith, ground arith)

  take_filled : (endpoint_try_receive (filled k endpoint m) endpoint).1 ≡ some m
  unfolding endpoint_try_receive
  take_filled = let (c, r, w) = filled_fields in rw (ready, c, r, w) refl

  full_refuses : endpoint_try_send (filled k endpoint m) endpoint n ≡ (filled k endpoint m, false)
  unfolding endpoint_try_send
  full_refuses = let (c, r, w) = filled_fields in rw (ready, c, r) (ground arith)

-- A receive that succeeds leaves the mailbox empty.
emptied :
    (k : Kernel) (endpoint : ℕ)
    → endpoint_message_ready
        (put_endpoint k endpoint
          (record (k.endpoints endpoint) { message = empty_message; message_ready = false }))
        endpoint
      ≡ false
unfolding endpoint_message_ready put_endpoint
emptied k endpoint = ground arith

never_ready :
    (k : Kernel) (endpoint : ℕ)
    → (k.endpoints endpoint).message_ready ≡ false
    → endpoint_message_ready k endpoint ≡ false
unfolding endpoint_message_ready
never_ready k endpoint h = ground arith

receive_empties :
    (k : Kernel) (endpoint : ℕ)
    → endpoint_usable k endpoint ≡ true
    → (k.endpoints endpoint).closed ≡ false
    → endpoint_message_ready (endpoint_try_receive k endpoint).0 endpoint ≡ false
unfolding endpoint_try_receive
receive_empties k endpoint u c =
    let passes : (not (endpoint_usable k endpoint) || (k.endpoints endpoint).closed) ≡ false =
      rw (u, c) refl in
    elim (Bool-cases (k.endpoints endpoint).message_ready) [
      | inl full ↦ rw (passes, full) (emptied k endpoint)
      | inr empty ↦ rw (passes, empty) (never_ready k endpoint empty)
    ]

-- After a send that succeeded, the receive on the same endpoint returns the words that were sent, with
-- zeroes after them, the mailbox is empty again, and until then a second send is refused unchanged.
pub receive-send :
    (k k' : Kernel) (endpoint : ℕ) (m n : IpcMessage)
    → endpoint_try_send k endpoint m ≡ (k', true)
    → ((endpoint_try_receive k' endpoint).1
        ≡ some (record { words = first_words 4 m.word_count m.words; word_count = m.word_count }))
      × (endpoint_message_ready (endpoint_try_receive k' endpoint).0 endpoint ≡ false)
      × (endpoint_try_send k' endpoint n ≡ (k', false))
receive-send k k' endpoint m n e =
    let s = sent k k' endpoint m e in
    let (c, r, w) = filled_fields k endpoint (sent_message m) n s.usable s.opened in
    rw s.leaves (
      rw (sym (copied m.words m.word_count s.count))
          (take_filled k endpoint (sent_message m) n s.usable s.opened),
      receive_empties (filled k endpoint (sent_message m)) endpoint
          (ready k endpoint (sent_message m) n s.usable s.opened) c,
      full_refuses k endpoint (sent_message m) n s.usable s.opened,
    )

-- A message that a send stored is stored again as it is.
first_words_twice :
    (n count : ℕ) (ws : List ℕ)
    → first_words n count (first_words n count ws) ≡ first_words n count ws
first_words_twice zero count ws = refl
first_words_twice (suc n) zero ws = refl
first_words_twice (suc n) (suc count) [] = ap (0 ∷◌) (first_words_twice n count [])
first_words_twice (suc n) (suc count) (w ∷ ws) = ap (w ∷◌) (first_words_twice n count ws)

abbrev with_words : ℕ → List ℕ → IpcMessage
with_words count ws = record { words = ws; word_count = count }

pub sent_message_twice :
    (m : IpcMessage) → m.word_count ≤ 4 → sent_message (sent_message m) ≡ sent_message m
sent_message_twice m h =
    let c = m.word_count in
    let zeroes = 0 ∷ 0 ∷ 0 ∷ 0 ∷ [] in
    let once = copied m.words c h in
    let twice =
      ap (λ (x : List ℕ). copy_words zeroes x c 0) once
      ∙ copied (first_words 4 c m.words) c h
      ∙ first_words_twice 4 c m.words in
    ap (with_words c) (twice ∙ sym once)
