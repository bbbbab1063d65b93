-- ===== src/Ipc/Committed.antt =====
-- kernel/ipc.c: a sender's message is staged in its endpoint for exactly as long as its wait is pending.
use jcos.Prelude.{ℕ, ◌≡◌, ◌≢◌, refl, sym, ◌∙◌, true, false, ◌&&◌, nonzero, arith}
use jcos.Kernel.{
  Kernel, Thread, Endpoint, ThreadWaitKind, ThreadWaitResult, wait_none, ipc_receive, ipc_send,
  pending, update,
}
use jcos.Waits.{result_eq, kind_eq}

-- A sender waits at the endpoint that links it, an endpoint links the sender that waits at it, and its
-- message is staged just as long as the wait is pending.
pub record IsCommitted (k : Kernel) : Type 0 where
  pub waits :
      (e : ℕ)
      → (k.endpoints e).waiting_sender ≢ 0
      → ((k.threads (k.endpoints e).waiting_sender).wait_kind ≡ ipc_send)
        × ((k.threads (k.endpoints e).waiting_sender).wait_object ≡ e)
  pub linked :
      (t : ℕ)
      → (k.threads t).wait_kind ≡ ipc_send
      → ((k.endpoints (k.threads t).wait_object).waiting_sender ≡ t) × (t ≢ 0)
  pub staged :
      (e : ℕ)
      → (k.endpoints e).waiting_sender_message_ready ≡ (
          nonzero (k.endpoints e).waiting_sender
          && result_eq (k.threads (k.endpoints e).waiting_sender).wait_result pending)

-- What none of the mailbox, the run queue and the other parts of a thread touch.
pub record Keeps (k k' : Kernel) : Type 0 where
  pub sender : (e : ℕ) → (k'.endpoints e).waiting_sender ≡ (k.endpoints e).waiting_sender
  pub stage :
      (e : ℕ)
      → (k'.endpoints e).waiting_sender_message_ready ≡ (k.endpoints e).waiting_sender_message_ready
  pub kind : (t : ℕ) → (k'.threads t).wait_kind ≡ (k.threads t).wait_kind
  pub object : (t : ℕ) → (k'.threads t).wait_object ≡ (k.threads t).wait_object
  pub result : (t : ℕ) → (k'.threads t).wait_result ≡ (k.threads t).wait_result

pub Keeps-refl : (k : Kernel) → Keeps k k
Keeps-refl k = record {
  sender = λ e. refl;
  stage = λ e. refl;
  kind = λ t. refl;
  object = λ t. refl;
  result = λ t. refl;
}

pub Keeps-trans : (k l m : Kernel) → Keeps k l → Keeps l m → Keeps k m
Keeps-trans k l m p q = record {
  sender = λ e. q.sender e ∙ p.sender e;
  stage = λ e. q.stage e ∙ p.stage e;
  kind = λ t. q.kind t ∙ p.kind t;
  object = λ t. q.object t ∙ p.object t;
  result = λ t. q.result t ∙ p.result t;
}

pub Keeps-IsCommitted : (k k' : Kernel) → Keeps k k' → IsCommitted k → IsCommitted k'
Keeps-IsCommitted k k' p c = record {
  waits = λ e n.
      let s = p.sender e in
      let (a, b) = c.waits e (λ z. n (s ∙ z)) in
      rw s (p.kind (k.endpoints e).waiting_sender ∙ a, p.object (k.endpoints e).waiting_sender ∙ b);
  linked = λ t h.
      let (a, n) = c.linked t (sym (p.kind t) ∙ h) in
      (rw (p.object t) (p.sender (k.threads t).wait_object ∙ a), n);
  staged =
      λ e. rw (p.stage e, p.sender e) (rw (p.result (k.endpoints e).waiting_sender) (c.staged e));
}

kind_is : (a b : ThreadWaitKind) → kind_eq a b ≡ true → a ≡ b
kind_is a b h = ground arith

-- A result for a receiver: no sender's wait changes.
pub receiver_result-IsCommitted :
    (k : Kernel) (t : ℕ) (r : ThreadWaitResult)
    → (k.threads t).wait_kind ≡ ipc_receive
    → IsCommitted k
    → IsCommitted
        (record k { threads = update k.threads t (record (k.threads t) { wait_result = r }) })
receiver_result-IsCommitted k t r h c = record {
  waits = λ e n. ground (arith, c.waits e);
  linked = λ a b. ground (arith, c.linked a);
  staged = λ e. ground (arith, c.staged e, c.waits e);
}

-- A terminal result for the sender of an endpoint, whose staged message goes.
pub sender_result-IsCommitted :
    (k : Kernel) (t e : ℕ) (r : ThreadWaitResult) (f : Endpoint)
    → (k.threads t).wait_kind ≡ ipc_send
    → (k.threads t).wait_object ≡ e
    → result_eq r pending ≡ false
    → f.waiting_sender ≡ (k.endpoints e).waiting_sender
    → f.waiting_sender_message_ready ≡ false
    → IsCommitted k
    → IsCommitted (record k {
      threads = update k.threads t (record (k.threads t) { wait_result = r });
      endpoints = update k.endpoints e f;
    })
sender_result-IsCommitted k t e r f kind object terminal same gone c =
    let link : (k.endpoints e).waiting_sender ≡ t = rw (sym object) ((c.linked t kind).0) in
    record {
      waits = λ a n. ground (arith, c.waits a);
      linked = λ a b. ground (arith, c.linked a);
      staged = λ a. ground (arith, c.staged a, c.waits a);
    }

-- A send begins: the thread had no wait, and the endpoint had no sender.
pub begin_send-IsCommitted :
    (k : Kernel) (t e : ℕ) (b : Thread) (f : Endpoint)
    → (k.threads t).wait_kind ≡ wait_none
    → (k.endpoints e).waiting_sender ≡ 0
    → t ≢ 0
    → b.wait_kind ≡ ipc_send
    → b.wait_object ≡ e
    → b.wait_result ≡ pending
    → f.waiting_sender ≡ t
    → f.waiting_sender_message_ready ≡ true
    → IsCommitted k
    → IsCommitted (record k { threads = update k.threads t b; endpoints = update k.endpoints e f })
begin_send-IsCommitted k t e b f idle vacant n kind object result link stage c = record {
  waits = λ a m. ground (arith, c.waits a);
  linked = λ a m. ground (arith, c.linked a);
  staged = λ a. ground (arith, c.staged a, c.waits a);
}

-- A wait of another kind begins or ends.
pub other_wait-IsCommitted :
    (k : Kernel) (t : ℕ) (b : Thread)
    → (k.threads t).wait_kind ≢ ipc_send
    → b.wait_kind ≢ ipc_send
    → IsCommitted k
    → IsCommitted (record k { threads = update k.threads t b })
other_wait-IsCommitted k t b before after c = record {
  waits = λ a m. ground (arith, c.waits a);
  linked = λ a m. ground (arith, c.linked a);
  staged = λ a. ground (arith, c.staged a, c.waits a);
}

-- The same where the stage of one endpoint may be behind the wait.
pub record IsStagedBut (k : Kernel) (e : ℕ) : Type 0 where
  pub waits :
      (a : ℕ)
      → (k.endpoints a).waiting_sender ≢ 0
      → ((k.threads (k.endpoints a).waiting_sender).wait_kind ≡ ipc_send)
        × ((k.threads (k.endpoints a).waiting_sender).wait_object ≡ a)
  pub linked :
      (t : ℕ)
      → (k.threads t).wait_kind ≡ ipc_send
      → ((k.endpoints (k.threads t).wait_object).waiting_sender ≡ t) × (t ≢ 0)
  pub staged :
      (a : ℕ)
      → a ≢ e
      → (k.endpoints a).waiting_sender_message_ready ≡ (
          nonzero (k.endpoints a).waiting_sender
          && result_eq (k.threads (k.endpoints a).waiting_sender).wait_result pending)

pub IsCommitted-IsStagedBut : (k : Kernel) (e : ℕ) → IsCommitted k → IsStagedBut k e
IsCommitted-IsStagedBut k e c = record {
  waits = c.waits;
  linked = c.linked;
  staged = λ a _. c.staged a;
}

-- A result for the sender of that endpoint.
pub sender_result-IsStagedBut :
    (k : Kernel) (t e : ℕ) (r : ThreadWaitResult)
    → (k.threads t).wait_kind ≡ ipc_send
    → (k.threads t).wait_object ≡ e
    → IsCommitted k
    → IsStagedBut
        (record k { threads = update k.threads t (record (k.threads t) { wait_result = r }) })
        e
sender_result-IsStagedBut k t e r kind object c = record {
  waits = λ a n. ground (arith, c.waits a);
  linked = λ a b. ground (arith, c.linked a);
  staged = λ a other. ground (arith, c.staged a, c.waits a);
}

-- A send ends, and its endpoint has no sender any more.
pub end_send-IsCommitted :
    (k : Kernel) (t e : ℕ) (b : Thread) (f : Endpoint)
    → (k.threads t).wait_kind ≡ ipc_send
    → (k.threads t).wait_object ≡ e
    → b.wait_kind ≡ wait_none
    → f.waiting_sender ≡ 0
    → f.waiting_sender_message_ready ≡ false
    → IsStagedBut k e
    → IsCommitted (record k { threads = update k.threads t b; endpoints = update k.endpoints e f })
end_send-IsCommitted k t e b f kind object after link stage c =
    let linked : (k.endpoints e).waiting_sender ≡ t = rw (sym object) ((c.linked t kind).0) in
    record {
      waits = λ a m. ground (arith, c.waits a);
      linked = λ a m. ground (arith, c.linked a);
      staged = λ a. ground (arith, c.staged a, c.waits a);
    }
