-- ===== src/Ipc/Receiving.antt =====
-- `ipc_receive_blocking_common` of kernel/ipc.c keeps the senders' messages staged as their waits say.
use jcos.Prelude.{
  ℕ, ◌≡◌, refl, Bool, false, not, ◌||◌, Option, none, some, if◌then◌else◌, nonzero, arith, if_both,
}
use jcos.Kernel.{
  IpcMessage, ThreadWaitKind, ThreadWaitResult, ipc_receive, pending, completed, cancelled,
}
use jcos.Waits.{result_eq, thread_wait_begin, thread_wait_matches_id}
use jcos.Endpoints.{empty_message, endpoint_message_ready}
use jcos.System.{System, thread_at}
use jcos.Ipc.{
  and_then, endpoint_at, store_endpoint, with_kernel, ipc_reservation_valid, ipc_finish,
  ipc_receive_locked, ipc_resolve_endpoint, right_receive,
}
use jcos.Ipc.Blocking.{
  Outcome, returns, parks, bad_timeout, is_caller, register, give_up, buffer, at_once, is_some,
  took_then, ipc_end_reservation, receive_ends, receive_round, receive_waits,
  ipc_receive_blocking_common, receive_resumes,
}
use jcos.Ipc.Committed.{IsCommitted, Keeps-IsCommitted}
use jcos.Ipc.Effects.{finish_receive-IsCommitted}
use jcos.Ipc.Events.{store-Keeps}
use jcos.Ipc.Steps.{Commits, CommitsAlone, alone_alone, receive_locked-Commits}
use jcos.Ipc.Waiting.{end_receiving-Commits, begin_receive-Commits}

-- The call halts, or leaves the senders' messages so whether it returns or parks.
abbrev pub CommitsWaiting {ℓ} : {A : Type ℓ} → Option (Outcome A) → Type 0
CommitsWaiting none = Unit {0}
CommitsWaiting (some (returns s a)) = IsCommitted s.kernel
CommitsWaiting (some (parks s e id)) = IsCommitted s.kernel

pub waiting_then {ℓ} :
    {A : Type ℓ} (o : Option System) (f : System → Option (Outcome A))
    → CommitsAlone o
    → ((s : System) → o ≡ some s → IsCommitted s.kernel → CommitsWaiting (f s))
    → CommitsWaiting (and_then o f)
waiting_then none f c g = tt
waiting_then (some s) f c g = g s refl c

pub finished_receive :
    (s : System) (t e id : ℕ) (r : ThreadWaitResult) (o : Option System)
    → ipc_finish s t e ipc_receive id r ≡ o
    → IsCommitted s.kernel
    → CommitsAlone o
finished_receive s t e id r none h c = tt
finished_receive s t e id r (some s') h c = finish_receive-IsCommitted s t e id r s' h c

receive_ends-Commits :
    (s : System) (e id : ℕ) (timed : Bool) (out : IpcMessage)
    → IsCommitted s.kernel
    → CommitsWaiting (receive_ends s e id timed out)
unfolding receive_ends
receive_ends-Commits s e id timed out c =
    let current = s.kernel.current_thread in
    waiting_then (ipc_end_reservation s current e ipc_receive id timed) _
      (end_receiving-Commits s current e id timed c) (λ s' _ c'. c')

-- The end of a receive after its wait is finished.
finished_then :
    (s : System) (current e id : ℕ) (timed : Bool) (out : IpcMessage) (r : ThreadWaitResult)
    → IsCommitted s.kernel
    → CommitsWaiting
        (and_then (ipc_finish s current e ipc_receive id r) (λ s'. receive_ends s' e id timed out))
finished_then s current e id timed out r c =
    let finished = ipc_finish s current e ipc_receive id r in
    waiting_then finished _ (finished_receive s current e id r finished refl c)
      (λ s' _ c'. receive_ends-Commits s' e id timed out c')

-- The branch of a round that takes the message.
took :
    (current e id : ℕ) (timed : Bool) (o : Option (System × Option IpcMessage))
    → Commits o
    → CommitsWaiting (took_then current e id timed o)
took current e id timed none c = tt
took current e id timed (some (s, m)) c =
    finished_then s current e id timed (buffer m) (if is_some m then completed else cancelled) c

receive_round-Commits :
    (s : System) (e id : ℕ) (timed : Bool)
    → IsCommitted s.kernel
    → CommitsWaiting (receive_round s e id timed)
unfolding receive_round
receive_round-Commits s e id timed c =
    let current = s.kernel.current_thread in
    if_both CommitsWaiting
      (not (thread_wait_matches_id s.kernel current ipc_receive e id)
        || not (ipc_reservation_valid s e ipc_receive))
      (λ _. tt)
      λ _.
        if_both CommitsWaiting (not (result_eq (thread_at s current).wait_result pending))
          (λ _. receive_ends-Commits s e id timed empty_message c)
          λ _.
            if_both CommitsWaiting (endpoint_message_ready s.kernel e)
              (λ _.
                took current e id timed (ipc_receive_locked s e current)
                  (receive_locked-Commits s e current c))
              (λ _. c)

pub receive_resumes-Commits :
    (s : System) (e id : ℕ) (timed waited : Bool)
    → IsCommitted s.kernel
    → CommitsWaiting (receive_resumes s e id timed waited)
unfolding receive_resumes
receive_resumes-Commits s e id timed waited c =
    if_both CommitsWaiting waited (λ _. receive_round-Commits s e id timed c)
      (λ _. finished_then s s.kernel.current_thread e id timed empty_message cancelled c)

give_up-Commits :
    (s : System) (current e id : ℕ)
    → IsCommitted s.kernel
    → CommitsAlone (give_up s current e ipc_receive id)
give_up-Commits s current e id c =
    let finished = ipc_finish s current e ipc_receive id cancelled in
    alone_alone finished _ (finished_receive s current e id cancelled finished refl c)
      (λ s' _ c'. end_receiving-Commits s' current e id false c')

pub register-kernel :
    (s : System) (t e : ℕ) (kind : ThreadWaitKind) (id : ℕ) (timed : Bool) (ticks : ℕ)
    → (register s t e kind id timed ticks).0.kernel ≡ s.kernel
register-kernel s t e kind id timed ticks =
    if_both (λ (o : System × Bool). o.0.kernel ≡ s.kernel) (not timed) (λ _. refl) (λ _. refl)

receive_waits-Commits :
    (s : System) (e : ℕ) (timed : Bool) (ticks : ℕ)
    → IsCommitted s.kernel
    → CommitsWaiting (receive_waits s e timed ticks)
unfolding receive_waits
receive_waits-Commits s e timed ticks c =
    let current = s.kernel.current_thread in
    let id = (thread_at s current).wait_id in
    let f = record (endpoint_at s e) { waiting_receiver = current; waiting_receiver_id = id } in
    let linked = store_endpoint s e f in
    let (s', registered) = register linked current e ipc_receive id timed ticks in
    let c₁ = Keeps-IsCommitted s.kernel linked.kernel (store-Keeps s e f refl refl) c in
    let c' : IsCommitted s'.kernel =
      rw (register-kernel linked current e ipc_receive id timed ticks) c₁ in
    if_both CommitsWaiting (not registered)
      (λ _.
        waiting_then (give_up s' current e ipc_receive id) _ (give_up-Commits s' current e id c')
          (λ s'' _ c''. c''))
      (λ _. receive_round-Commits s' e id timed c')

at_once-Commits : (o : Option (System × Option IpcMessage)) → Commits o → CommitsWaiting (at_once o)
at_once-Commits none c = tt
at_once-Commits (some (s, m)) c = c

pub receive_blocking-Commits :
    (s : System) (process handle : ℕ) (timed : Bool) (ticks : ℕ)
    → IsCommitted s.kernel
    → CommitsWaiting (ipc_receive_blocking_common s process handle timed ticks)
unfolding ipc_receive_blocking_common
receive_blocking-Commits s process handle timed ticks c =
    let current = s.kernel.current_thread in
    let endpoint = ipc_resolve_endpoint s process handle right_receive in
    let e = endpoint_at s endpoint in
    let (k, begun) = thread_wait_begin s.kernel current ipc_receive endpoint in
    if_both CommitsWaiting (bad_timeout s timed ticks || not (is_caller s process)) (λ _. c)
      λ _.
        if_both CommitsWaiting (not (nonzero endpoint) || e.closed) (λ _. c)
          λ _.
            if_both CommitsWaiting (endpoint_message_ready s.kernel endpoint)
              (λ _.
                at_once-Commits (ipc_receive_locked s endpoint current)
                  (receive_locked-Commits s endpoint current c))
              λ _.
                if_both CommitsWaiting
                  (nonzero e.waiting_receiver || nonzero e.waiting_receiver_id || not begun)
                  (λ _. c)
                  λ b.
                    receive_waits-Commits (with_kernel s k) endpoint timed ticks
                      (begin_receive-Commits s.kernel current endpoint (ground arith) c)
