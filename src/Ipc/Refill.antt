-- ===== src/Ipc/Refill.antt =====
-- `refill` of kernel/ipc.c, the end of a receive, and its rollbacks.
use jcos.Prelude.{
  ℕ, ◌≡◌, refl, sym, ◌∙◌, ap, subst, true, false, not, Option, none, some, List, [], ◌∷◌, arith,
  if_both,
}
use jcos.Kernel.{Kernel, Endpoint, IpcMessage, ipc_send, pending, completed}
use jcos.Waits.{completable, thread_wait_matches, thread_wait_matches_id, thread_wait_try_complete}
use jcos.Endpoints.{empty_message, endpoint_try_send, put_endpoint}
use jcos.Endpoints.Mailbox.{sent_message, sent_message_twice}
use jcos.System.{System, thread_at, store_thread}
use jcos.Ipc.{
  endpoint_at, with_kernel, store_endpoint, unstage, ipc_message_valid, ipc_make_ready, ipc_finish,
  put_back, commit_sender, refill,
}
use jcos.Ipc.Leaves.{Leaves, Leaves-matches, ready-Leaves, ready-IsCompletable}
use jcos.Ipc.Channel.{
  slot, messages, IsChannel, Receives, IsOpen, emptied, filled, receive_first, send_last,
  emptied-IsOpen, filled-IsOpen, Leaves-IsOpen, put_at,
}

-- A message that a send stored.
abbrev pub IsStored : IpcMessage → Type 0
IsStored m = (sent_message m ≡ m) × (ipc_message_valid m ≡ true)

-- A channel whose mailbox is filled.
pub filled-IsChannel :
    (f : Endpoint) (m : IpcMessage)
    → IsStored m
    → f.message ≡ m
    → f.message_ready ≡ true
    → IsChannel f
filled-IsChannel f m i h r = record { stored = λ _. rw h i; full = λ _. r }

filled_channel :
    (f : Endpoint)
    → f.message_ready ≡ true
    → messages f
      ≡ f.message ∷ slot f.waiting_sender_message_ready (sent_message f.waiting_sender_message)
filled_channel f h = rw h refl

-- The rollback: the message is the first again.
put_back_lem :
    (s : System) (e : ℕ) (m : IpcMessage) (before : List IpcMessage)
    → IsOpen s.kernel e
    → (endpoint_at s e).message_ready ≡ false
    → IsStored m
    → before
      ≡ m
        ∷ slot
            (endpoint_at s e).waiting_sender_message_ready
            (sent_message (endpoint_at s e).waiting_sender_message)
    → Receives before e (put_back s e m)
put_back_lem s e m before op empty i b =
    let f = record (endpoint_at s e) { message = m; message_ready = true } in
    rw (send_last s.kernel e m op empty i.1, i.0)
      (rw (put_at s.kernel e f) (sym b, filled-IsChannel f m i refl refl))

-- A wait that can be finished.
pub record IsWaiting (k : Kernel) (t e id : ℕ) : Type 0 where
  pub matches : thread_wait_matches_id k t ipc_send e id ≡ true
  pub result : (k.threads t).wait_result ≡ pending

finishes :
    (s : System) (t e id : ℕ)
    → IsWaiting s.kernel t e id
    → completable s.kernel t ≡ true
    → ipc_finish s t e ipc_send id completed
      ≡ some (store_thread s t (record (thread_at s t) { wait_result = completed }))
unfolding ipc_finish thread_wait_try_complete
finishes s t e id w c = rw (w.matches, w.result, c) refl

stored_at : (s : System) (e : ℕ) (f : Endpoint) → endpoint_at (store_endpoint s e f) e ≡ f
stored_at s e f = ground arith

pub sent-IsStored : (m : IpcMessage) → ipc_message_valid m ≡ true → IsStored (sent_message m)
unfolding ipc_message_valid
sent-IsStored m v = (sent_message_twice m (ground arith), v)

-- The wake-up leaves a waiting sender.
Leaves-IsWaiting :
    (s s' : System) (t e id : ℕ)
    → Leaves s s'
    → IsWaiting s.kernel t e id
    → IsWaiting s'.kernel t e id
Leaves-IsWaiting s s' t e id l w = record {
  matches = Leaves-matches s s' t ipc_send e id l ∙ w.matches;
  result = l.result t ∙ w.result;
}

-- A channel with both messages, of which the first is taken out already.
record IsRefilled (s : System) (e : ℕ) (m : IpcMessage) : Type 0 where
  pub op : IsOpen s.kernel e
  pub ready : (endpoint_at s e).message_ready ≡ true
  pub staged : (endpoint_at s e).waiting_sender_message_ready ≡ true
  pub same : (endpoint_at s e).message ≡ sent_message (endpoint_at s e).waiting_sender_message
  pub valid : ipc_message_valid (endpoint_at s e).waiting_sender_message ≡ true
  pub first : IsStored m

Leaves-IsRefilled :
    (s s' : System) (e : ℕ) (m : IpcMessage)
    → Leaves s s'
    → IsRefilled s e m
    → IsRefilled s' e m × (endpoint_at s' e ≡ endpoint_at s e)
Leaves-IsRefilled s s' e m l r =
    let at : endpoint_at s' e ≡ endpoint_at s e = ap (λ (f : ℕ → Endpoint). f e) l.endpoints in
    (
      record {
        op = Leaves-IsOpen s s' e l r.op;
        ready = rw at r.ready;
        staged = rw at r.staged;
        same = rw at r.same;
        valid = rw at r.valid;
        first = r.first;
      },
      at,
    )

-- Both messages, the first of them out of the mailbox.
abbrev both : System → ℕ → IpcMessage → List IpcMessage
both s e m = m ∷ sent_message (endpoint_at s e).waiting_sender_message ∷ []

rolls_back :
    (s : System) (e : ℕ) (m : IpcMessage)
    → IsRefilled s e m
    → Receives (both s e m) e (put_back (with_kernel s (emptied s.kernel e)) e m)
rolls_back s e m r =
    let f = record (endpoint_at s e) { message = empty_message; message_ready = false } in
    put_back_lem (with_kernel s (emptied s.kernel e)) e m (both s e m)
      (emptied-IsOpen s.kernel e r.op) (rw (put_at s.kernel e f) refl) r.first
      (rw (put_at s.kernel e f, r.staged) refl)

commits :
    (s : System) (e sender : ℕ) (m : IpcMessage)
    → IsRefilled s e m
    → IsWaiting s.kernel sender e (endpoint_at s e).waiting_sender_id
    → completable s.kernel sender ≡ true
    → Receives
        (both s e m)
        e
        (elim (ipc_finish s sender e ipc_send (endpoint_at s e).waiting_sender_id completed) [
          | none ↦ none
          | some s₂ ↦ some (unstage s₂ e, some m)
        ])
commits s e sender m r w c =
    let f = record (endpoint_at s e) {
      waiting_sender_message = empty_message;
      waiting_sender_message_ready = false;
    } in
    let s₂ = store_thread s sender (record (thread_at s sender) { wait_result = completed }) in
    rw (finishes s sender e (endpoint_at s e).waiting_sender_id w c) (
      rw (stored_at s₂ e f) (
        rw (r.ready, r.same) refl,
        filled-IsChannel f (sent_message (endpoint_at s e).waiting_sender_message)
            (sent-IsStored (endpoint_at s e).waiting_sender_message r.valid) r.same r.ready,
      ))

commit_sender_lem :
    (s : System) (e sender : ℕ) (m : IpcMessage)
    → IsRefilled s e m
    → IsWaiting s.kernel sender e (endpoint_at s e).waiting_sender_id
    → Receives (both s e m) e (commit_sender s e sender m)
unfolding commit_sender
commit_sender_lem s e sender m r w =
    let woken = ipc_make_ready s sender in
    let s₁ = woken.0 in
    let l = ready-Leaves s sender in
    let (r₁, at) = Leaves-IsRefilled s s₁ e m l r in
    let id = (endpoint_at s₁ e).waiting_sender_id in
    let w₁ : IsWaiting s₁.kernel sender e id =
      rw at (Leaves-IsWaiting s s₁ sender e (endpoint_at s e).waiting_sender_id l w) in
    subst
      (λ (f : Endpoint).
        Receives (m ∷ sent_message f.waiting_sender_message ∷ []) e (commit_sender s e sender m))
      at
      (if_both (Receives (both s₁ e m) e) (not woken.1)
        (λ _.
          subst
            (λ (o : Kernel × Option IpcMessage).
              Receives (both s₁ e m) e
                (elim o.1 [ none ↦ none | some _ ↦ put_back (with_kernel s₁ o.0) e m ]))
            (sym (receive_first s₁.kernel e r₁.op r₁.ready)) (rolls_back s₁ e m r₁))
        (λ h. commits s₁ e sender m r₁ w₁ (ready-IsCompletable s sender (ground arith))))

-- The sender of a staged message waits.
unfoldable pub IsLinked : System → ℕ → Type 0
IsLinked s e =
    (endpoint_at s e).waiting_sender_message_ready ≡ true
    → IsWaiting s.kernel (endpoint_at s e).waiting_sender e (endpoint_at s e).waiting_sender_id

pub send_refused :
    (k : Kernel) (e : ℕ) (m : IpcMessage)
    → not (endpoint_try_send k e m).1 ≡ true
    → (endpoint_try_send k e m).0 ≡ k
unfolding endpoint_try_send
send_refused k e m h = ground arith

pub send_done :
    (k : Kernel) (e : ℕ) (m : IpcMessage)
    → not (endpoint_try_send k e m).1 ≡ false
    → ((endpoint_try_send k e m).0 ≡ filled k e (sent_message m)) × (ipc_message_valid m ≡ true)
unfolding endpoint_try_send ipc_message_valid
send_done k e m h = (ground arith, ground arith)

-- A wait's test does not see the endpoints.
pub put_endpoint-IsWaiting :
    (k : Kernel) (t e id : ℕ) (f : Endpoint)
    → IsWaiting k t e id
    → IsWaiting (put_endpoint k e f) t e id
unfolding thread_wait_matches_id thread_wait_matches put_endpoint
put_endpoint-IsWaiting k t e id f w = record { matches = w.matches; result = w.result }

-- The mailbox is filled with the staged message.
refilled :
    (s : System) (e : ℕ) (m : IpcMessage)
    → IsOpen s.kernel e
    → (endpoint_at s e).message_ready ≡ false
    → (endpoint_at s e).waiting_sender_message_ready ≡ true
    → ipc_message_valid (endpoint_at s e).waiting_sender_message ≡ true
    → IsStored m
    → IsWaiting s.kernel (endpoint_at s e).waiting_sender e (endpoint_at s e).waiting_sender_id
    → Receives (m ∷ messages (endpoint_at s e)) e (
        commit_sender
          (with_kernel s
            (filled s.kernel e (sent_message (endpoint_at s e).waiting_sender_message)))
          e
          (endpoint_at s e).waiting_sender
          m)
unfolding put_endpoint
refilled s e m op empty staged valid i w =
    let f = endpoint_at s e in
    let g = record f { message = sent_message f.waiting_sender_message; message_ready = true } in
    let s' = with_kernel s (filled s.kernel e (sent_message f.waiting_sender_message)) in
    let at : endpoint_at s' e ≡ g = put_at s.kernel e g in
    let r : IsRefilled s' e m = record {
      op = filled-IsOpen s.kernel e (sent_message f.waiting_sender_message) op;
      ready = rw at refl;
      staged = rw at staged;
      same = rw at refl;
      valid = rw at valid;
      first = i;
    } in
    let w' : IsWaiting s'.kernel f.waiting_sender e (endpoint_at s' e).waiting_sender_id =
      rw at (put_endpoint-IsWaiting s.kernel f.waiting_sender e f.waiting_sender_id g w) in
    subst (λ (b : List IpcMessage). Receives b e (commit_sender s' e f.waiting_sender m))
      (ap (λ (x : Endpoint). m ∷ sent_message x.waiting_sender_message ∷ []) at
        ∙ rw (empty, staged) refl)
      (commit_sender_lem s' e f.waiting_sender m r w')

-- What is left once the first message is out of the mailbox.
pub refill_lem :
    (s : System) (e : ℕ) (m : IpcMessage)
    → IsOpen s.kernel e
    → (endpoint_at s e).message_ready ≡ false
    → IsStored m
    → IsLinked s e
    → Receives (m ∷ messages (endpoint_at s e)) e (refill s e m)
unfolding refill IsLinked
refill_lem s e m op empty i link =
    let f = endpoint_at s e in
    let sending = endpoint_try_send s.kernel e f.waiting_sender_message in
    if_both (Receives (m ∷ messages f) e) (not f.waiting_sender_message_ready)
      (λ h.
        (refl, record { stored = λ r. absurd (ground arith); full = λ r. absurd (ground arith) }))
      λ st.
        if_both (Receives (m ∷ messages f) e) (not sending.1)
          (λ h.
            subst (λ k. Receives (m ∷ messages f) e (put_back (with_kernel s k) e m))
              (sym (send_refused s.kernel e f.waiting_sender_message h))
              (put_back_lem s e m (m ∷ messages f) op empty i (rw empty refl)))
          λ h.
            let (now, valid) = send_done s.kernel e f.waiting_sender_message h in
            subst
              (λ k.
                Receives (m ∷ messages f) e (commit_sender (with_kernel s k) e f.waiting_sender m))
              (sym now) (refilled s e m op empty (ground arith) valid i (link (ground arith)))
