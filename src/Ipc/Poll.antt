-- ===== src/Ipc/Poll.antt =====
-- `ipc_timeout_poll` of kernel/ipc.c: the timer completes the waits whose deadline is reached.
use jcos.Prelude.{ℕ, Bool, not, ◌&&◌, Option, none, some, List, [], ◌∷◌, ◌==◌, if◌then◌else◌}
use jcos.ObjectStorage.{storage_live}
use jcos.Kernel.{ThreadWaitKind, wait_none, ipc_receive, ipc_send, process_exit, pending, timed_out}
use jcos.Waits.{result_eq, thread_wait_matches_id}
use jcos.System.{System, thread_at}
use jcos.Timeouts.{IpcTimedWait, ipc_deadline_reached}
use jcos.Ipc.{
  endpoint_at, and_then, unstage, ipc_endpoint_valid, ipc_reservation_valid, ipc_make_ready,
  ipc_finish,
}

-- The tests of the poll on an entry, whose failure halts.
unfoldable pub entry_valid : System → IpcTimedWait → Bool
unfolding ipc_endpoint_valid
entry_valid s w =
    storage_live s.kernel.thread_storage w.thread
    && ipc_endpoint_valid s w.endpoint
    && ((thread_at s w.thread).id == w.thread_id)
    && ((endpoint_at s w.endpoint).id == w.endpoint_id)
    && thread_wait_matches_id s.kernel w.thread w.kind w.endpoint w.wait_id
    && ipc_reservation_valid s w.endpoint w.kind

-- A wait that is out of time: a sender's staged message is dropped.
unfoldable pub expire : System → IpcTimedWait → ThreadWaitKind → Option System
unfolding ipc_finish
expire s w ipc_send =
    let finished = ipc_finish s w.thread w.endpoint ipc_send w.wait_id timed_out in
    if not (endpoint_at s w.endpoint).waiting_sender_message_ready
    then none
    else and_then finished (λ s'. some (unstage s' w.endpoint))
expire s w ipc_receive = ipc_finish s w.thread w.endpoint ipc_receive w.wait_id timed_out
expire s w wait_none = none
expire s w process_exit = none

-- `if (!ipc_make_ready(thread)) cpu_halt_forever();`
abbrev pub wake_or_halt : System → ℕ → Option System
wake_or_halt s thread = let (s', woken) = ipc_make_ready s thread in if woken then some s' else none

unfoldable pub poll_entry : System → ℕ → IpcTimedWait → Option System
unfolding entry_valid expire ipc_make_ready
poll_entry s now w =
    let expiring = and_then (expire s w w.kind) (λ s'. wake_or_halt s' w.thread) in
    if not w.occupied
    then some s
    else if not (entry_valid s w)
    then none
    else if not (result_eq (thread_at s w.thread).wait_result pending)
    then some s
    else if not (ipc_deadline_reached now w.deadline)
    then some s
    else expiring

-- The loop over the table.
unfoldable pub poll_entries : List IpcTimedWait → System → ℕ → Option System
unfolding poll_entry
poll_entries [] s now = some s
poll_entries (w ∷ ws) s now = and_then (poll_entry s now w) (λ s'. poll_entries ws s' now)

unfoldable pub ipc_timeout_poll : System → ℕ → Option System
unfolding poll_entries
ipc_timeout_poll s now = poll_entries s.timed_waits s now
