-- ===== src/Ipc/Sending.antt =====
-- `ipc_send_blocking_common` of kernel/ipc.c keeps the senders' messages staged as their waits say.
use jcos.Prelude.{
  ℕ, ◌≡◌, ◌≢◌, refl, sym, Bool, true, false, not, ◌&&◌, ◌||◌, Option, none, some, nonzero, arith,
  if_both, subst,
}
use jcos.Kernel.{Kernel, IpcMessage, ipc_send, pending, completed, cancelled}
use jcos.Waits.{result_eq, thread_wait_begin, thread_wait_matches_id}
use jcos.Endpoints.{endpoint_message_ready}
use jcos.System.{System, thread_at}
use jcos.Ipc.{
  and_then, endpoint_at, store_endpoint, with_kernel, ipc_message_valid, ipc_reservation_valid,
  ipc_finish, ipc_send_locked, ipc_resolve_endpoint, right_send,
}
use jcos.Ipc.Blocking.{
  bad_timeout, is_caller, register, give_up, sent_at_once, ipc_end_reservation, send_ends,
  send_round, send_waits, ipc_send_blocking_common, send_resumes,
}
use jcos.Ipc.Committed.{IsCommitted, IsStagedBut, IsCommitted-IsStagedBut}
use jcos.Ipc.Effects.{finish_send-IsStagedBut}
use jcos.Ipc.Steps.{Commits, CommitsAlone, send_locked-Commits}
use jcos.Ipc.Waiting.{end_sending-Commits, begin_send-Commits}
use jcos.Ipc.Receiving.{CommitsWaiting, waiting_then, register-kernel}

staged_ends-Commits :
    (s : System) (e id : ℕ) (timed : Bool)
    → IsStagedBut s.kernel e
    → CommitsWaiting (send_ends s e id timed)
unfolding send_ends
staged_ends-Commits s e id timed c =
    let current = s.kernel.current_thread in
    let sent = result_eq (thread_at s current).wait_result completed in
    if_both CommitsWaiting (sent && (endpoint_at s e).waiting_sender_message_ready) (λ _. tt)
      λ _.
        waiting_then (ipc_end_reservation s current e ipc_send id timed) _
          (end_sending-Commits s current e id timed c) (λ s' _ c'. c')

send_ends-Commits :
    (s : System) (e id : ℕ) (timed : Bool)
    → IsCommitted s.kernel
    → CommitsWaiting (send_ends s e id timed)
send_ends-Commits s e id timed c =
    staged_ends-Commits s e id timed (IsCommitted-IsStagedBut s.kernel e c)

send_round-Commits :
    (s : System) (e id : ℕ) (timed : Bool)
    → IsCommitted s.kernel
    → CommitsWaiting (send_round s e id timed)
unfolding send_round
send_round-Commits s e id timed c =
    let current = s.kernel.current_thread in
    if_both CommitsWaiting
      (not (thread_wait_matches_id s.kernel current ipc_send e id)
        || not (ipc_reservation_valid s e ipc_send))
      (λ _. tt)
      λ _.
        if_both CommitsWaiting (not (result_eq (thread_at s current).wait_result pending))
          (λ _. send_ends-Commits s e id timed c)
          λ _.
            if_both CommitsWaiting (not (endpoint_at s e).waiting_sender_message_ready) (λ _. tt)
              (λ _. c)

-- A wait that is cancelled leaves its message staged until the wait ends.
cancelled_ends :
    (s : System) (current e id : ℕ) (timed : Bool) (o : Option System)
    → ipc_finish s current e ipc_send id cancelled ≡ o
    → IsCommitted s.kernel
    → CommitsWaiting (and_then o (λ s'. send_ends s' e id timed))
cancelled_ends s current e id timed none h c = tt
cancelled_ends s current e id timed (some s') h c =
    staged_ends-Commits s' e id timed (finish_send-IsStagedBut s current e id cancelled s' h c)

pub send_resumes-Commits :
    (s : System) (e id : ℕ) (timed waited : Bool)
    → IsCommitted s.kernel
    → CommitsWaiting (send_resumes s e id timed waited)
unfolding send_resumes
send_resumes-Commits s e id timed waited c =
    let current = s.kernel.current_thread in
    if_both CommitsWaiting waited (λ _. send_round-Commits s e id timed c)
      (λ _.
        cancelled_ends s current e id timed (ipc_finish s current e ipc_send id cancelled) refl c)

given_up :
    (s : System) (current e id : ℕ) (o : Option System)
    → ipc_finish s current e ipc_send id cancelled ≡ o
    → IsCommitted s.kernel
    → CommitsAlone (and_then o (λ s'. ipc_end_reservation s' current e ipc_send id false))
given_up s current e id none h c = tt
given_up s current e id (some s') h c =
    end_sending-Commits s' current e id false
      (finish_send-IsStagedBut s current e id cancelled s' h c)

-- The sender is linked and its message staged.
abbrev staged : System → (endpoint : ℕ) → IpcMessage → System
staged s e m = store_endpoint s e (record (endpoint_at s e) {
  waiting_sender = s.kernel.current_thread;
  waiting_sender_id = (thread_at s s.kernel.current_thread).wait_id;
  waiting_sender_message = m;
  waiting_sender_message_ready = true;
})

send_waits-Commits :
    (s : System) (e : ℕ) (m : IpcMessage) (timed : Bool) (ticks : ℕ)
    → IsCommitted (staged s e m).kernel
    → CommitsWaiting (send_waits s e m timed ticks)
unfolding send_waits
send_waits-Commits s e m timed ticks c =
    let current = s.kernel.current_thread in
    let id = (thread_at s current).wait_id in
    let (s', registered) = register (staged s e m) current e ipc_send id timed ticks in
    let c' : IsCommitted s'.kernel =
      rw (register-kernel (staged s e m) current e ipc_send id timed ticks) c in
    if_both CommitsWaiting (not registered)
      (λ _.
        waiting_then (give_up s' current e ipc_send id) _
          (given_up s' current e id (ipc_finish s' current e ipc_send id cancelled) refl c')
          (λ s'' _ c''. c''))
      (λ _. send_round-Commits s' e id timed c')

sent_at_once-Commits : (o : Option (System × Bool)) → Commits o → CommitsWaiting (sent_at_once o)
sent_at_once-Commits none c = tt
sent_at_once-Commits (some (s, sent)) c = c

begin-current :
    (k : Kernel) (t e : ℕ) → (thread_wait_begin k t ipc_send e).0.current_thread ≡ k.current_thread
unfolding thread_wait_begin
begin-current k t e = ground arith

-- A send that may wait: the endpoint has no sender.
begun-Commits :
    (s : System) (e : ℕ) (m : IpcMessage)
    → (thread_wait_begin s.kernel s.kernel.current_thread ipc_send e).1 ≡ true
    → (endpoint_at s e).waiting_sender ≡ 0
    → s.kernel.current_thread ≢ 0
    → IsCommitted s.kernel
    → IsCommitted
        (staged
          (with_kernel s (thread_wait_begin s.kernel s.kernel.current_thread ipc_send e).0)
          e
          m).kernel
begun-Commits s e m h vacant n c =
    let t = s.kernel.current_thread in
    let s' = with_kernel s (thread_wait_begin s.kernel t ipc_send e).0 in
    subst
      (λ c.
        IsCommitted
          (store_endpoint s' e (record (endpoint_at s' e) {
            waiting_sender = c;
            waiting_sender_id = (thread_at s' c).wait_id;
            waiting_sender_message = m;
            waiting_sender_message_ready = true;
          })).kernel)
      (sym (begin-current s.kernel t e))
      (begin_send-Commits s t e (thread_at s' t).wait_id m h vacant n c)

pub send_blocking-Commits :
    (s : System) (process handle : ℕ) (m : IpcMessage) (timed : Bool) (ticks : ℕ)
    → IsCommitted s.kernel
    → CommitsWaiting (ipc_send_blocking_common s process handle m timed ticks)
unfolding ipc_send_blocking_common
send_blocking-Commits s process handle m timed ticks c =
    let current = s.kernel.current_thread in
    let endpoint = ipc_resolve_endpoint s process handle right_send in
    let e = endpoint_at s endpoint in
    let (k, begun) = thread_wait_begin s.kernel current ipc_send endpoint in
    if_both CommitsWaiting
      (not (ipc_message_valid m) || bad_timeout s timed ticks || not (is_caller s process)) (λ _. c)
      λ caller.
        if_both CommitsWaiting (not (nonzero endpoint) || e.closed) (λ _. c)
          λ _.
            if_both CommitsWaiting (not (endpoint_message_ready s.kernel endpoint))
              (λ _.
                sent_at_once-Commits (ipc_send_locked s endpoint m)
                  (send_locked-Commits s endpoint m c))
              λ _.
                if_both CommitsWaiting
                  (nonzero e.waiting_sender
                    || nonzero e.waiting_sender_id
                    || e.waiting_sender_message_ready
                    || not begun)
                  (λ _. c)
                  λ b.
                    send_waits-Commits (with_kernel s k) endpoint m timed ticks
                      (begun-Commits s endpoint m (ground arith) (ground arith) (ground arith) c)
