-- ===== src/Ipc/Blocking.antt =====
-- kernel/ipc.c: the calls that wait. A call runs until it returns or parks; while it is parked other
-- code runs, and it goes on when `scheduler_wait_current` returns, with that call's result.
use jcos.Prelude.{
  ℕ, Bool, true, false, not, ◌&&◌, ◌||◌, Option, none, some, ltb, ◌==◌, if◌then◌else◌, nonzero,
}
use jcos.Kernel.{IpcMessage, ThreadWaitKind, ipc_receive, ipc_send, pending, completed, cancelled}
use jcos.Waits.{result_eq, thread_wait_begin, thread_wait_matches_id, thread_wait_end}
use jcos.Endpoints.{empty_message, endpoint_message_ready}
use jcos.System.{System, thread_at}
use jcos.Timeouts.{timeout_max_ticks, ipc_timeout_register, ipc_timeout_unregister}
use jcos.Ipc.{
  endpoint_at, with_kernel, and_then, store_endpoint, right_send, right_receive, ipc_message_valid,
  ipc_reservation_valid, ipc_resolve_endpoint, ipc_finish, ipc_send_locked, ipc_receive_locked,
}
use jcos.Ipc.Close.{clear_waiter}

-- A call that has returned a value, or that has parked with its endpoint and its token.
pub data Outcome {ℓ} (A : Type ℓ) : Type ℓ where
  returns : System → A → Outcome A
  parks : System → (endpoint id : ℕ) → Outcome A

-- The effect of `ipc_timeout_unregister`, which halts where it fails.
abbrev pub must_unregister :
    System → (thread endpoint : ℕ) → ThreadWaitKind → ℕ → Bool → Option System
must_unregister s thread endpoint kind id timed =
    let (waits, found) = ipc_timeout_unregister s.timed_waits thread endpoint kind id in
    if not timed
    then some s
    else if not found
    then none
    else some (record s { timed_waits = waits })

unfoldable pub ipc_end_reservation :
    System → (current endpoint : ℕ) → ThreadWaitKind → ℕ → (timed : Bool) → Option System
ipc_end_reservation s current endpoint kind id timed =
    let rest = and_then (must_unregister s current endpoint kind id timed) λ s₁.
      let (k, ended) = thread_wait_end s₁.kernel current kind endpoint in
      if not ended then none else some (clear_waiter (with_kernel s₁ k) endpoint kind) in
    if not (thread_wait_matches_id s.kernel current kind endpoint id)
      || not (ipc_reservation_valid s endpoint kind)
    then none
    else rest

-- A timeout that cannot be kept.
abbrev pub bad_timeout : System → (timed : Bool) → (ticks : ℕ) → Bool
bad_timeout s timed ticks =
    timed && (not (nonzero ticks) || ltb timeout_max_ticks ticks || not s.timer.initialized)

-- The caller is the current thread of the process.
abbrev pub is_caller : System → ℕ → Bool
is_caller s process =
    let current = s.kernel.current_thread in
    nonzero process
    && nonzero current
    && nonzero (thread_at s current).id
    && ((thread_at s current).process == process)

-- The effect of `ipc_timeout_register`, and its result; a call without a timeout passes.
abbrev pub register :
    System
    → (thread endpoint : ℕ) → ThreadWaitKind
    → ℕ
    → (timed : Bool) → (ticks : ℕ) → System × Bool
register s thread endpoint kind id timed ticks =
    let (waits, done) =
      ipc_timeout_register s.kernel s.timer s.timed_waits thread endpoint kind id ticks in
    if not timed then (s, true) else (record s { timed_waits = waits }, done)

-- A wait whose timeout could not be registered is cancelled at once.
abbrev pub give_up : System → (current endpoint : ℕ) → ThreadWaitKind → ℕ → Option System
give_up s current endpoint kind id =
    and_then (ipc_finish s current endpoint kind id cancelled)
      λ s'. ipc_end_reservation s' current endpoint kind id false

-- The end of `ipc_receive_blocking_common`: the message in the caller's buffer, or false.
unfoldable pub receive_ends :
    System → (endpoint id : ℕ) → (timed : Bool) → IpcMessage → Option (Outcome (Option IpcMessage))
unfolding ipc_end_reservation
receive_ends s endpoint id timed out =
    let current = s.kernel.current_thread in
    let received = result_eq (thread_at s current).wait_result completed in
    and_then (ipc_end_reservation s current endpoint ipc_receive id timed)
      λ s'. some (returns s' (if received then some out else none))

-- The message that a receive left in the caller's buffer.
abbrev pub buffer : Option IpcMessage → IpcMessage
buffer none = empty_message
buffer (some m) = m

abbrev pub is_some {ℓ} : {A : Type ℓ} → Option A → Bool
is_some none = false
is_some (some a) = true

-- What the loop does with the result of `ipc_receive_locked`.
abbrev pub took_then :
    (current endpoint id : ℕ)
    → (timed : Bool) → Option (System × Option IpcMessage)
    → Option (Outcome (Option IpcMessage))
took_then current endpoint id timed none = none
took_then current endpoint id timed (some (s, m)) =
    and_then
      (ipc_finish s current endpoint ipc_receive id (if is_some m then completed else cancelled))
      λ s'. receive_ends s' endpoint id timed (buffer m)

-- One round of the loop of `ipc_receive_blocking_common`, up to the wait or to the end of the call.
unfoldable pub receive_round :
    System → (endpoint id : ℕ) → (timed : Bool) → Option (Outcome (Option IpcMessage))
unfolding receive_ends
receive_round s endpoint id timed =
    let current = s.kernel.current_thread in
    let taking = took_then current endpoint id timed (ipc_receive_locked s endpoint current) in
    if not (thread_wait_matches_id s.kernel current ipc_receive endpoint id)
      || not (ipc_reservation_valid s endpoint ipc_receive)
    then none
    else if not (result_eq (thread_at s current).wait_result pending)
    then receive_ends s endpoint id timed empty_message
    else if endpoint_message_ready s.kernel endpoint
    then taking
    else some (parks s endpoint id)

-- The registration of a receiver, and the first round.
unfoldable pub receive_waits :
    System → (endpoint : ℕ) → (timed : Bool) → (ticks : ℕ) → Option (Outcome (Option IpcMessage))
unfolding receive_round
receive_waits s endpoint timed ticks =
    let current = s.kernel.current_thread in
    let id = (thread_at s current).wait_id in
    let linked =
      store_endpoint s endpoint (record (endpoint_at s endpoint) {
        waiting_receiver = current;
        waiting_receiver_id = id;
      }) in
    let (s', registered) = register linked current endpoint ipc_receive id timed ticks in
    if not registered
    then and_then (give_up s' current endpoint ipc_receive id) (λ s''. some (returns s'' none))
    else receive_round s' endpoint id timed

-- A receive that did not have to wait.
abbrev pub at_once : Option (System × Option IpcMessage) → Option (Outcome (Option IpcMessage))
at_once none = none
at_once (some (s, m)) = some (returns s m)

unfoldable pub ipc_receive_blocking_common :
    System
    → (process handle : ℕ) → (timed : Bool) → (ticks : ℕ) → Option (Outcome (Option IpcMessage))
unfolding receive_waits
ipc_receive_blocking_common s process handle timed ticks =
    let current = s.kernel.current_thread in
    let endpoint = ipc_resolve_endpoint s process handle right_receive in
    let e = endpoint_at s endpoint in
    let (k, begun) = thread_wait_begin s.kernel current ipc_receive endpoint in
    let now = at_once (ipc_receive_locked s endpoint current) in
    let waits = receive_waits (with_kernel s k) endpoint timed ticks in
    if bad_timeout s timed ticks || not (is_caller s process)
    then some (returns s none)
    else if not (nonzero endpoint) || e.closed
    then some (returns s none)
    else if endpoint_message_ready s.kernel endpoint
    then now
    else if nonzero e.waiting_receiver || nonzero e.waiting_receiver_id || not begun
    then some (returns s none)
    else waits

-- The call goes on after a wait: `waited` is what `scheduler_wait_current` returned.
unfoldable pub receive_resumes :
    System → (endpoint id : ℕ) → (timed waited : Bool) → Option (Outcome (Option IpcMessage))
unfolding receive_round receive_ends
receive_resumes s endpoint id timed waited =
    let current = s.kernel.current_thread in
    let cancelling =
      and_then (ipc_finish s current endpoint ipc_receive id cancelled)
        (λ s'. receive_ends s' endpoint id timed empty_message) in
    let again = receive_round s endpoint id timed in if waited then again else cancelling

-- The end of `ipc_send_blocking_common`.
unfoldable pub send_ends : System → (endpoint id : ℕ) → (timed : Bool) → Option (Outcome Bool)
unfolding ipc_end_reservation
send_ends s endpoint id timed =
    let current = s.kernel.current_thread in
    let sent = result_eq (thread_at s current).wait_result completed in
    let rest =
      and_then (ipc_end_reservation s current endpoint ipc_send id timed)
        (λ s'. some (returns s' sent)) in
    if sent && (endpoint_at s endpoint).waiting_sender_message_ready then none else rest

-- One round of the loop of `ipc_send_blocking_common`.
unfoldable pub send_round : System → (endpoint id : ℕ) → (timed : Bool) → Option (Outcome Bool)
unfolding send_ends
send_round s endpoint id timed =
    let current = s.kernel.current_thread in
    if not (thread_wait_matches_id s.kernel current ipc_send endpoint id)
      || not (ipc_reservation_valid s endpoint ipc_send)
    then none
    else if not (result_eq (thread_at s current).wait_result pending)
    then send_ends s endpoint id timed
    else if not (endpoint_at s endpoint).waiting_sender_message_ready
    then none
    else some (parks s endpoint id)

-- The registration of a sender with its staged message, and the first round.
unfoldable pub send_waits :
    System → (endpoint : ℕ) → IpcMessage → (timed : Bool) → (ticks : ℕ) → Option (Outcome Bool)
unfolding send_round
send_waits s endpoint m timed ticks =
    let current = s.kernel.current_thread in
    let id = (thread_at s current).wait_id in
    let linked = store_endpoint s endpoint (record (endpoint_at s endpoint) {
      waiting_sender = current;
      waiting_sender_id = id;
      waiting_sender_message = m;
      waiting_sender_message_ready = true;
    }) in
    let (s', registered) = register linked current endpoint ipc_send id timed ticks in
    if not registered
    then and_then (give_up s' current endpoint ipc_send id) (λ s''. some (returns s'' false))
    else send_round s' endpoint id timed

-- A send that did not have to wait.
abbrev pub sent_at_once : Option (System × Bool) → Option (Outcome Bool)
sent_at_once none = none
sent_at_once (some (s, sent)) = some (returns s sent)

unfoldable pub ipc_send_blocking_common :
    System
    → (process handle : ℕ) → IpcMessage
    → (timed : Bool) → (ticks : ℕ) → Option (Outcome Bool)
unfolding send_waits
ipc_send_blocking_common s process handle m timed ticks =
    let current = s.kernel.current_thread in
    let endpoint = ipc_resolve_endpoint s process handle right_send in
    let e = endpoint_at s endpoint in
    let (k, begun) = thread_wait_begin s.kernel current ipc_send endpoint in
    let now = sent_at_once (ipc_send_locked s endpoint m) in
    let waits = send_waits (with_kernel s k) endpoint m timed ticks in
    if not (ipc_message_valid m) || bad_timeout s timed ticks || not (is_caller s process)
    then some (returns s false)
    else if not (nonzero endpoint) || e.closed
    then some (returns s false)
    else if not (endpoint_message_ready s.kernel endpoint)
    then now
    else if nonzero e.waiting_sender
        || nonzero e.waiting_sender_id
        || e.waiting_sender_message_ready
        || not begun
    then some (returns s false)
    else waits

unfoldable pub send_resumes :
    System → (endpoint id : ℕ) → (timed waited : Bool) → Option (Outcome Bool)
unfolding send_round send_ends
send_resumes s endpoint id timed waited =
    let current = s.kernel.current_thread in
    let cancelling =
      and_then (ipc_finish s current endpoint ipc_send id cancelled)
        (λ s'. send_ends s' endpoint id timed) in
    let again = send_round s endpoint id timed in if waited then again else cancelling
