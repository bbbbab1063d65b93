-- ===== src/Ipc.antt =====
-- kernel/ipc.c: sending and receiving on endpoints, and closing them. A call runs under local IRQ
-- exclusion, so it is one step; `none` is a call that halts the processor.
pub mod Close
pub mod Blocking
pub mod Poll
pub mod Committed
pub mod Effects
pub mod Steps
pub mod Events
pub mod Waiting
pub mod Receiving
pub mod Sending
pub mod Aborting
pub mod Run
pub mod Leaves
pub mod Channel
pub mod Refill
pub mod Taking
pub mod Putting
pub mod Tests
use jcos.Prelude.{
  ℕ, zero, suc, ◌+◌, ◌≡◌, refl, Bool, true, false, not, ◌&&◌, ◌||◌, Option, none, some, List, [],
  ◌∷◌, ltb, leb, ◌==◌, if◌then◌else◌, nonzero, length,
}
use jcos.ObjectStorage.{storage_live}
use jcos.Kernel.{
  Kernel, Thread, Endpoint, IpcMessage, ThreadWaitKind, ThreadWaitResult, wait_none, ipc_receive,
  ipc_send, process_exit, pending, completed, cancelled, peer_closed, timed_out, result_none, ready,
  running, blocked, type_endpoint, update,
}
use jcos.Waits.{
  state_eq, kind_eq, result_eq, thread_wait_active, thread_wait_matches_id,
  thread_wait_try_complete, thread_wait_abort,
}
use jcos.Endpoints.{
  empty_message, put_endpoint, endpoint_try_send, endpoint_try_receive, endpoint_message_ready,
  endpoint_owned_first, endpoint_owned_next, endpoint_closed,
}
use jcos.Capability.{capability_lookup_rights}
use jcos.System.{System, thread_at, process_capabilities}
use jcos.Scheduler.{scheduler_wake}
use jcos.Timeouts.{ipc_timeout_unregister}

abbrev pub endpoint_at : System → ℕ → Endpoint
endpoint_at s endpoint = s.kernel.endpoints endpoint

abbrev pub with_kernel : System → Kernel → System
with_kernel s k = record s { kernel = k }

-- A step that may halt, and what follows it.
abbrev pub and_then {ℓ} : {A : Type ℓ} → Option System → (System → Option A) → Option A
and_then none f = none
and_then (some s) f = f s

-- A store through an endpoint pointer.
abbrev pub store_endpoint : System → ℕ → Endpoint → System
store_endpoint s endpoint e =
    with_kernel s (record s.kernel { endpoints = update s.kernel.endpoints endpoint e })

-- CAPABILITY_RIGHT_SEND and CAPABILITY_RIGHT_RECEIVE
abbrev pub right_send : ℕ
right_send = 32

abbrev pub right_receive : ℕ
right_receive = 64

unfoldable pub ipc_message_valid : IpcMessage → Bool
ipc_message_valid m = nonzero m.word_count && leb m.word_count 4

unfoldable pub ipc_endpoint_valid : System → ℕ → Bool
ipc_endpoint_valid s endpoint =
    storage_live s.kernel.endpoint_storage endpoint
    && (endpoint_at s endpoint).initialized
    && nonzero (endpoint_at s endpoint).id

unfoldable pub ipc_result_valid : ThreadWaitResult → Bool
ipc_result_valid result =
    result_eq result pending
    || result_eq result completed
    || result_eq result cancelled
    || result_eq result peer_closed
    || result_eq result timed_out

-- The waiter of an endpoint for a kind of wait, and its token: `kind == THREAD_WAIT_IPC_RECEIVE`.
abbrev pub waiter : Endpoint → ThreadWaitKind → ℕ
waiter e kind = if kind_eq kind ipc_receive then e.waiting_receiver else e.waiting_sender

abbrev pub waiter_id : Endpoint → ThreadWaitKind → ℕ
waiter_id e kind = if kind_eq kind ipc_receive then e.waiting_receiver_id else e.waiting_sender_id

unfoldable pub ipc_reservation_valid : System → ℕ → ThreadWaitKind → Bool
unfolding ipc_result_valid
ipc_reservation_valid s endpoint kind =
    let thread = waiter (endpoint_at s endpoint) kind in
    let id = waiter_id (endpoint_at s endpoint) kind in
    let t = thread_at s thread in
    if not (nonzero thread)
    then not (nonzero id)
    else if not (thread_wait_matches_id s.kernel thread kind endpoint id)
        || not (ipc_result_valid t.wait_result)
    then false
    else if (thread == s.kernel.current_thread) && state_eq t.state running
    then t.on_run_queue && nonzero t.run_next
    else if not t.interrupt_context_ready || not (nonzero t.interrupt_rsp)
    then false
    else if state_eq t.state blocked
    then not t.on_run_queue && not (nonzero t.run_next)
    else if state_eq t.state ready
    then t.on_run_queue && nonzero t.run_next
    else false

-- The object of a lookup; zero where it fails.
abbrev object_or_null : Option ℕ → ℕ
object_or_null none = 0
object_or_null (some object) = object

unfoldable pub ipc_resolve_endpoint : System → (process handle rights : ℕ) → ℕ
unfolding ipc_endpoint_valid process_capabilities
ipc_resolve_endpoint s process handle rights =
    let caps = process_capabilities s process in
    let object =
      object_or_null (capability_lookup_rights s.kernel caps handle type_endpoint rights) in
    if not (nonzero caps) then 0 else if ipc_endpoint_valid s object then object else 0

unfoldable pub ipc_make_ready : System → ℕ → System × Bool
ipc_make_ready s thread =
    let t = thread_at s thread in
    if state_eq t.state blocked then scheduler_wake s thread else (
      s,
      ((thread == s.kernel.current_thread) && state_eq t.state running && t.on_run_queue)
          || (state_eq t.state ready && t.on_run_queue),
    )

unfoldable pub ipc_finish :
    System → (thread endpoint : ℕ) → ThreadWaitKind → ℕ → ThreadWaitResult → Option System
ipc_finish s thread endpoint kind id result =
    let (k, done) = thread_wait_try_complete s.kernel thread kind endpoint id result in
    if not done then none else some (with_kernel s k)

-- The end of `ipc_send_locked`: a receiver that cannot be made ready takes the message back.
unfoldable pub send_wakes : System → (endpoint receiver : ℕ) → Option (System × Bool)
unfolding ipc_make_ready
send_wakes s endpoint receiver =
    let (s₁, woken) = ipc_make_ready s receiver in
    let (k, discarded) = endpoint_try_receive s₁.kernel endpoint in
    if not (nonzero receiver)
    then some (s, true)
    else if woken
    then some (s₁, true)
    else elim discarded [ none ↦ none | some _ ↦ some (with_kernel s₁ k, false) ]

unfoldable pub ipc_send_locked : System → ℕ → IpcMessage → Option (System × Bool)
unfolding ipc_endpoint_valid ipc_message_valid send_wakes
ipc_send_locked s endpoint m =
    let receiver = (endpoint_at s endpoint).waiting_receiver in
    let (k, sent) = endpoint_try_send s.kernel endpoint m in
    let woken = send_wakes (with_kernel s k) endpoint receiver in
    if not (ipc_endpoint_valid s endpoint)
      || not (ipc_message_valid m)
      || (endpoint_at s endpoint).closed
      || endpoint_message_ready s.kernel endpoint
      || not (ipc_reservation_valid s endpoint ipc_receive)
    then some (s, false)
    else if nonzero receiver && not (result_eq (thread_at s receiver).wait_result pending)
    then some (s, false)
    else if not sent
    then some (with_kernel s k, false)
    else woken

-- The stores that clear a staged message.
abbrev pub unstage : System → ℕ → System
unstage s endpoint = store_endpoint s endpoint (record (endpoint_at s endpoint) {
  waiting_sender_message = empty_message;
  waiting_sender_message_ready = false;
})

-- The rollback of `ipc_receive_locked`: the message goes back into the mailbox.
abbrev pub put_back : System → ℕ → IpcMessage → Option (System × Option IpcMessage)
put_back s endpoint received =
    let (k, sent) = endpoint_try_send s.kernel endpoint received in
    if not sent then none else some (with_kernel s k, none)

-- The part of `ipc_receive_locked` for a staged message, once it is in the mailbox.
unfoldable pub commit_sender :
    System → (endpoint sender : ℕ) → (received : IpcMessage) → Option (System × Option IpcMessage)
unfolding ipc_make_ready ipc_finish
commit_sender s endpoint sender received =
    let (s₁, woken) = ipc_make_ready s sender in
    let (k, discarded) = endpoint_try_receive s₁.kernel endpoint in
    let back = put_back (with_kernel s₁ k) endpoint received in
    let id = (endpoint_at s₁ endpoint).waiting_sender_id in
    if not woken
    then elim discarded [ none ↦ none | some _ ↦ back ]
    else elim (ipc_finish s₁ sender endpoint ipc_send id completed) [
      | none ↦ none
      | some s₂ ↦ some (unstage s₂ endpoint, some received)
    ]

-- `ipc_receive_locked` once it has the message out of the mailbox.
unfoldable pub refill :
    System → (endpoint : ℕ) → (received : IpcMessage) → Option (System × Option IpcMessage)
unfolding commit_sender
refill s endpoint received =
    let e = endpoint_at s endpoint in
    let (k, sent) = endpoint_try_send s.kernel endpoint e.waiting_sender_message in
    let committed = commit_sender (with_kernel s k) endpoint e.waiting_sender received in
    let back = put_back (with_kernel s k) endpoint received in
    if not e.waiting_sender_message_ready
    then some (s, some received)
    else if not sent
    then back
    else committed

-- The tests of `ipc_receive_locked`.
unfoldable pub receive_refused : System → (endpoint current : ℕ) → Bool
unfolding ipc_endpoint_valid
receive_refused s endpoint current =
    let e = endpoint_at s endpoint in
    let pends = result_eq (thread_at s e.waiting_sender).wait_result pending in
    not (ipc_endpoint_valid s endpoint)
    || e.closed
    || not (ipc_reservation_valid s endpoint ipc_receive)
    || not (ipc_reservation_valid s endpoint ipc_send)
    || (nonzero e.waiting_receiver
        && (not (e.waiting_receiver == current)
            || not (result_eq (thread_at s e.waiting_receiver).wait_result pending)))
    || not (endpoint_message_ready s.kernel endpoint)
    || (e.waiting_sender_message_ready && (not (nonzero e.waiting_sender) || not pends))
    || (nonzero e.waiting_sender && pends && not e.waiting_sender_message_ready)

-- The message is `none` for the return value false.
unfoldable pub ipc_receive_locked :
    System → (endpoint current : ℕ) → Option (System × Option IpcMessage)
unfolding receive_refused refill
ipc_receive_locked s endpoint current =
    let (k, received) = endpoint_try_receive s.kernel endpoint in
    if receive_refused s endpoint current then some (s, none) else elim received [
      | none ↦ some (with_kernel s k, none)
      | some m ↦ refill (with_kernel s k) endpoint m
    ]

unfoldable pub ipc_try_send : System → (process handle : ℕ) → IpcMessage → Option (System × Bool)
unfolding ipc_resolve_endpoint ipc_send_locked
ipc_try_send s process handle m =
    let endpoint = ipc_resolve_endpoint s process handle right_send in
    if not (nonzero process) || not (ipc_message_valid m)
    then some (s, false)
    else if nonzero endpoint
    then ipc_send_locked s endpoint m
    else some (s, false)

unfoldable pub ipc_try_receive : System → (process handle : ℕ) → Option (System × Option IpcMessage)
unfolding ipc_resolve_endpoint ipc_receive_locked
ipc_try_receive s process handle =
    let endpoint = ipc_resolve_endpoint s process handle right_receive in
    if nonzero endpoint
    then ipc_receive_locked s endpoint s.kernel.current_thread
    else some (s, none)
