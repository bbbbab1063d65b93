-- ===== src/Ipc/Steps.antt =====
-- Each call of kernel/ipc.c keeps the senders' messages staged as their waits say.
use jcos.Prelude.{ℕ, ◌≡◌, refl, false, not, ◌&&◌, ◌||◌, Option, none, some, nonzero, if_both}
use jcos.Kernel.{IpcMessage, ThreadWaitResult, ipc_receive, ipc_send, pending, completed}
use jcos.Waits.{result_eq}
use jcos.Endpoints.{empty_message, endpoint_try_send, endpoint_try_receive, endpoint_message_ready}
use jcos.System.{System, thread_at}
use jcos.Ipc.{
  and_then, endpoint_at, unstage, with_kernel, ipc_endpoint_valid, ipc_message_valid,
  ipc_reservation_valid, ipc_make_ready, ipc_finish, send_wakes, ipc_send_locked, put_back,
  commit_sender, refill, receive_refused, ipc_receive_locked, ipc_resolve_endpoint, ipc_try_send,
  ipc_try_receive, right_send, right_receive,
}
use jcos.Ipc.Committed.{IsCommitted, Keeps-IsCommitted}
use jcos.Ipc.Effects.{send-Keeps, receive-Keeps, ready-Keeps, finish_send-IsCommitted}

-- The call halts, or leaves the senders' messages so.
abbrev pub Commits {ℓ} : {A : Type ℓ} → Option (System × A) → Type 0
Commits none = Unit {0}
Commits (some (s, a)) = IsCommitted s.kernel

abbrev pub CommitsAlone : Option System → Type 0
CommitsAlone none = Unit {0}
CommitsAlone (some s) = IsCommitted s.kernel

pub alone_then {ℓ} :
    {A : Type ℓ} (o : Option System) (f : System → Option (System × A))
    → CommitsAlone o
    → ((s : System) → o ≡ some s → IsCommitted s.kernel → Commits (f s))
    → Commits (and_then o f)
alone_then none f c g = tt
alone_then (some s) f c g = g s refl c

pub alone_alone :
    (o : Option System) (f : System → Option System)
    → CommitsAlone o
    → ((s : System) → o ≡ some s → IsCommitted s.kernel → CommitsAlone (f s))
    → CommitsAlone (and_then o f)
alone_alone none f c g = tt
alone_alone (some s) f c g = g s refl c

-- The mailbox's operations and wake-ups.
after_send :
    (s : System) (e : ℕ) (m : IpcMessage)
    → IsCommitted s.kernel
    → IsCommitted (endpoint_try_send s.kernel e m).0
after_send s e m =
    Keeps-IsCommitted s.kernel (endpoint_try_send s.kernel e m).0 (send-Keeps s.kernel e m)

after_receive :
    (s : System) (e : ℕ) → IsCommitted s.kernel → IsCommitted (endpoint_try_receive s.kernel e).0
after_receive s e =
    Keeps-IsCommitted s.kernel (endpoint_try_receive s.kernel e).0 (receive-Keeps s.kernel e)

after_ready :
    (s : System) (t : ℕ) → IsCommitted s.kernel → IsCommitted (ipc_make_ready s t).0.kernel
after_ready s t = Keeps-IsCommitted s.kernel (ipc_make_ready s t).0.kernel (ready-Keeps s t)

discarding {ℓ} :
    {A : Type ℓ} (discarded : Option IpcMessage) (o : Option (System × A))
    → Commits o
    → Commits (elim discarded [ none ↦ none | some _ ↦ o ])
discarding none o c = tt
discarding (some m) o c = c

send_wakes-Commits :
    (s : System) (e receiver : ℕ) → IsCommitted s.kernel → Commits (send_wakes s e receiver)
unfolding send_wakes
send_wakes-Commits s e receiver c =
    let woken = ipc_make_ready s receiver in
    let (k, discarded) = endpoint_try_receive woken.0.kernel e in
    let d = after_ready s receiver c in
    if_both Commits (not (nonzero receiver)) (λ _. c)
      λ _.
        if_both Commits woken.1 (λ _. d)
          (λ _.
            discarding discarded (some (with_kernel woken.0 k, false)) (after_receive woken.0 e d))

pub send_locked-Commits :
    (s : System) (e : ℕ) (m : IpcMessage) → IsCommitted s.kernel → Commits (ipc_send_locked s e m)
unfolding ipc_send_locked
send_locked-Commits s e m c =
    let receiver = (endpoint_at s e).waiting_receiver in
    let (k, sent) = endpoint_try_send s.kernel e m in
    let d = after_send s e m c in
    if_both Commits
      (not (ipc_endpoint_valid s e)
        || not (ipc_message_valid m)
        || (endpoint_at s e).closed
        || endpoint_message_ready s.kernel e
        || not (ipc_reservation_valid s e ipc_receive))
      (λ _. c)
      λ _.
        if_both Commits
          (nonzero receiver && not (result_eq (thread_at s receiver).wait_result pending)) (λ _. c)
          λ _.
            if_both Commits (not sent) (λ _. d)
              (λ _. send_wakes-Commits (with_kernel s k) e receiver d)

put_back-Commits :
    (s : System) (e : ℕ) (m : IpcMessage) → IsCommitted s.kernel → Commits (put_back s e m)
put_back-Commits s e m c =
    if_both Commits (not (endpoint_try_send s.kernel e m).1) (λ _. tt) (λ _. after_send s e m c)

-- The elimination of a finished wait.
finished_unstaged :
    (s : System) (t e id : ℕ) (r : ThreadWaitResult) (m : IpcMessage)
    → (o : Option System) → ipc_finish s t e ipc_send id r ≡ o
    → IsCommitted s.kernel
    → Commits (elim o [ none ↦ none | some s₂ ↦ some (unstage s₂ e, some m) ])
finished_unstaged s t e id r m none h c = tt
finished_unstaged s t e id r m (some s') h c =
    finish_send-IsCommitted s t e id r s'
      (record (endpoint_at s' e) {
        waiting_sender_message = empty_message;
        waiting_sender_message_ready = false;
      })
      h refl refl c

commit_sender-Commits :
    (s : System) (e sender : ℕ) (m : IpcMessage)
    → IsCommitted s.kernel
    → Commits (commit_sender s e sender m)
unfolding commit_sender
commit_sender-Commits s e sender m c =
    let (s₁, woken) = ipc_make_ready s sender in
    let (k, discarded) = endpoint_try_receive s₁.kernel e in
    let d = after_ready s sender c in
    let id = (endpoint_at s₁ e).waiting_sender_id in
    if_both Commits (not woken)
      (λ _.
        discarding discarded (put_back (with_kernel s₁ k) e m)
          (put_back-Commits (with_kernel s₁ k) e m (after_receive s₁ e d)))
      (λ _.
        finished_unstaged s₁ sender e id completed m (ipc_finish s₁ sender e ipc_send id completed)
          refl d)

refill-Commits :
    (s : System) (e : ℕ) (m : IpcMessage) → IsCommitted s.kernel → Commits (refill s e m)
unfolding refill
refill-Commits s e m c =
    let f = endpoint_at s e in
    let (k, sent) = endpoint_try_send s.kernel e f.waiting_sender_message in
    let d = after_send s e f.waiting_sender_message c in
    if_both Commits (not f.waiting_sender_message_ready) (λ _. c)
      λ _.
        if_both Commits (not sent) (λ _. put_back-Commits (with_kernel s k) e m d)
          (λ _. commit_sender-Commits (with_kernel s k) e f.waiting_sender m d)

taken :
    (s : System) (e : ℕ) (o : Option IpcMessage)
    → IsCommitted s.kernel
    → Commits (elim o [ none ↦ some (s, none) | some m ↦ refill s e m ])
taken s e none c = c
taken s e (some m) c = refill-Commits s e m c

pub receive_locked-Commits :
    (s : System) (e current : ℕ) → IsCommitted s.kernel → Commits (ipc_receive_locked s e current)
unfolding ipc_receive_locked
receive_locked-Commits s e current c =
    let (k, received) = endpoint_try_receive s.kernel e in
    if_both Commits (receive_refused s e current) (λ _. c)
      (λ _. taken (with_kernel s k) e received (after_receive s e c))

pub try_send-Commits :
    (s : System) (process handle : ℕ) (m : IpcMessage)
    → IsCommitted s.kernel
    → Commits (ipc_try_send s process handle m)
unfolding ipc_try_send
try_send-Commits s process handle m c =
    let e = ipc_resolve_endpoint s process handle right_send in
    if_both Commits (not (nonzero process) || not (ipc_message_valid m)) (λ _. c)
      λ _. if_both Commits (nonzero e) (λ _. send_locked-Commits s e m c) (λ _. c)

pub try_receive-Commits :
    (s : System) (process handle : ℕ)
    → IsCommitted s.kernel
    → Commits (ipc_try_receive s process handle)
unfolding ipc_try_receive
try_receive-Commits s process handle c =
    let e = ipc_resolve_endpoint s process handle right_receive in
    if_both Commits (nonzero e) (λ _. receive_locked-Commits s e s.kernel.current_thread c) (λ _. c)
