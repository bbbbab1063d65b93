-- ===== src/Ipc/Close.antt =====
-- kernel/ipc.c: closing endpoints, and aborting the wait of a thread that is to be terminated.
use jcos.Prelude.{
  ℕ, zero, suc, ◌+◌, Bool, true, false, not, ◌&&◌, ◌||◌, Option, none, some, ◌==◌, if◌then◌else◌,
  nonzero, length,
}
use jcos.Kernel.{
  ThreadWaitKind, wait_none, ipc_receive, ipc_send, process_exit, pending, peer_closed, ready,
  blocked,
}
use jcos.Waits.{state_eq, kind_eq, result_eq, thread_wait_active, thread_wait_abort}
use jcos.Endpoints.{empty_message, endpoint_owned_first, endpoint_owned_next, endpoint_closed}
use jcos.System.{System, thread_at}
use jcos.Timeouts.{ipc_timeout_unregister}
use jcos.Ipc.{
  endpoint_at, with_kernel, and_then, store_endpoint, ipc_endpoint_valid, ipc_reservation_valid,
  ipc_make_ready, ipc_finish,
}

-- What `ipc_endpoint_close` refuses.
unfoldable pub close_refused : System → ℕ → Bool
unfolding ipc_endpoint_valid
close_refused s endpoint =
    let e = endpoint_at s endpoint in
    let pends = result_eq (thread_at s e.waiting_sender).wait_result pending in
    not (ipc_endpoint_valid s endpoint)
    || e.closed
    || not (ipc_reservation_valid s endpoint ipc_receive)
    || not (ipc_reservation_valid s endpoint ipc_send)
    || (e.waiting_sender_message_ready && (not (nonzero e.waiting_sender) || not pends))
    || (nonzero e.waiting_sender && pends && not e.waiting_sender_message_ready)

-- A waiter whose wait is pending learns that the peer closed.
unfoldable pub finish_closed : (thread endpoint : ℕ) → ThreadWaitKind → ℕ → System → Option System
unfolding ipc_finish
finish_closed thread endpoint kind id s =
    let finished = ipc_finish s thread endpoint kind id peer_closed in
    if nonzero thread && result_eq (thread_at s thread).wait_result pending
    then finished
    else some s

-- A waiter, if there is one, is made ready, or the processor halts.
unfoldable pub must_wake : (thread : ℕ) → System → Option System
unfolding ipc_make_ready
must_wake thread s =
    let (s', woken) = ipc_make_ready s thread in
    if not (nonzero thread) then some s else if woken then some s' else none

-- The stores that drop both messages.
abbrev pub drop_messages : System → ℕ → System
drop_messages s endpoint = store_endpoint s endpoint (record (endpoint_at s endpoint) {
  waiting_sender_message = empty_message;
  waiting_sender_message_ready = false;
  message = empty_message;
  message_ready = false;
})

-- `ipc_endpoint_close` once its tests have passed.
unfoldable pub close_endpoint : System → ℕ → Option System
unfolding finish_closed must_wake
close_endpoint s endpoint =
    let e = endpoint_at s endpoint in
    and_then
      (finish_closed e.waiting_receiver endpoint ipc_receive e.waiting_receiver_id
        (store_endpoint s endpoint (record e { closed = true })))
      λ s₁. and_then (finish_closed e.waiting_sender endpoint ipc_send e.waiting_sender_id s₁) λ s₂.
        and_then (must_wake e.waiting_receiver (drop_messages s₂ endpoint))
          (must_wake e.waiting_sender)

unfoldable pub ipc_endpoint_close : System → ℕ → Option (System × Bool)
unfolding close_refused close_endpoint
ipc_endpoint_close s endpoint =
    if close_refused s endpoint
    then some (s, false)
    else and_then (close_endpoint s endpoint) (λ s'. some (s', true))

-- A close, and what follows it where it succeeds.
abbrev pub closed_then :
    Option (System × Bool) → (System → Option (System × Bool)) → Option (System × Bool)
closed_then none f = none
closed_then (some (s, closed)) f = if closed then f s else some (s, false)

-- The loop of `ipc_close_owned_endpoints`, on fuel for the endpoints left. The next one is found before
-- this one is closed.
unfoldable pub close_owned : ℕ → System → (owner endpoint : ℕ) → Option (System × Bool)
unfolding ipc_endpoint_close
close_owned zero s owner endpoint = some (s, true)
close_owned (suc fuel) s owner endpoint =
    let next = endpoint_owned_next s.kernel owner endpoint in
    let skip = close_owned fuel s owner next in
    let closing =
      closed_then (ipc_endpoint_close s endpoint) (λ s'. close_owned fuel s' owner next) in
    if not (nonzero endpoint)
    then some (s, true)
    else if endpoint_closed s.kernel endpoint
    then skip
    else closing

unfoldable pub ipc_close_owned_endpoints : System → ℕ → Option (System × Bool)
unfolding close_owned
ipc_close_owned_endpoints s owner =
    if not (nonzero owner)
    then some (s, false)
    else close_owned (length s.kernel.endpoint_storage + 1) s owner
        (endpoint_owned_first s.kernel owner)

-- `ipc_timeout_unregister`, whose result is ignored.
abbrev pub unregister : System → (thread endpoint : ℕ) → ThreadWaitKind → ℕ → System
unregister s thread endpoint kind id = record s {
  timed_waits = (ipc_timeout_unregister s.timed_waits thread endpoint kind id).0;
}

-- The link from the endpoint, by the kind of the wait.
abbrev pub clear_waiter : System → ℕ → ThreadWaitKind → System
clear_waiter s endpoint kind =
    let e = endpoint_at s endpoint in
    if kind_eq kind ipc_receive
    then store_endpoint s endpoint (record e { waiting_receiver = 0; waiting_receiver_id = 0 })
    else store_endpoint s endpoint (record e {
      waiting_sender = 0;
      waiting_sender_id = 0;
      waiting_sender_message = empty_message;
      waiting_sender_message_ready = false;
    })

-- The end of `ipc_abort_thread_wait` on a receiver or a sender.
unfoldable pub abort_waiter :
    System → (thread endpoint : ℕ) → ThreadWaitKind → (linked id : ℕ) → System × Bool
abort_waiter s thread endpoint kind linked id =
    let (k, aborted) = thread_wait_abort s.kernel thread kind endpoint in
    let s' = unregister (with_kernel s k) thread endpoint kind id in
    if not (linked == thread)
    then (s, false)
    else if not aborted
    then (with_kernel s k, false)
    else (clear_waiter s' endpoint kind, true)

unfoldable pub abort_by_kind : System → (thread endpoint : ℕ) → ThreadWaitKind → ℕ → System × Bool
unfolding abort_waiter
abort_by_kind s thread endpoint ipc_receive id =
    abort_waiter s thread endpoint ipc_receive (endpoint_at s endpoint).waiting_receiver id
abort_by_kind s thread endpoint ipc_send id =
    abort_waiter s thread endpoint ipc_send (endpoint_at s endpoint).waiting_sender id
abort_by_kind s thread endpoint wait_none id = (s, false)
abort_by_kind s thread endpoint process_exit id = (s, false)

unfoldable pub ipc_abort_thread_wait : System → ℕ → System × Bool
unfolding abort_by_kind
ipc_abort_thread_wait s thread =
    let t = thread_at s thread in
    if (thread == s.kernel.current_thread) || not (thread_wait_active s.kernel thread)
    then (s, false)
    else if not (state_eq t.state blocked) && not (state_eq t.state ready)
    then (s, false)
    else if not (ipc_endpoint_valid s t.wait_object)
        || not (ipc_reservation_valid s t.wait_object t.wait_kind)
    then (s, false)
    else abort_by_kind s thread t.wait_object t.wait_kind t.wait_id
