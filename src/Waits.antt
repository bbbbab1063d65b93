-- ===== src/Waits.antt =====
-- The wait operations of kernel/thread.c: a thread registers one wait under a token, whoever holds the
-- token completes it, and the thread ends it. Each runs under local IRQ exclusion, so it is one step.
pub mod Moves
pub mod Tokens
mod Tests
use jcos.Prelude.{
  ℕ, zero, suc, ◌+◌, ◌≡◌, refl, Bool, true, false, not, ◌&&◌, ◌||◌, List, [], ◌∷◌, ◌==◌,
  if◌then◌else◌, nonzero, add64,
}
use jcos.ObjectStorage.{storage_live}
use jcos.Kernel.{
  Kernel, Thread, ThreadState, invalid, ready, running, blocked, dead, ThreadWaitKind, wait_none,
  ipc_receive, ipc_send, process_exit, ThreadWaitResult, result_none, pending, cancelled, completed,
  peer_closed, timed_out, update,
}

-- `==` on the enums.
abbrev pub state_eq : ThreadState → ThreadState → Bool
state_eq invalid invalid = true
state_eq ready ready = true
state_eq running running = true
state_eq blocked blocked = true
state_eq dead dead = true
state_eq _ _ = false

abbrev pub kind_eq : ThreadWaitKind → ThreadWaitKind → Bool
kind_eq wait_none wait_none = true
kind_eq ipc_receive ipc_receive = true
kind_eq ipc_send ipc_send = true
kind_eq process_exit process_exit = true
kind_eq _ _ = false

abbrev pub result_eq : ThreadWaitResult → ThreadWaitResult → Bool
result_eq result_none result_none = true
result_eq pending pending = true
result_eq cancelled cancelled = true
result_eq completed completed = true
result_eq peer_closed peer_closed = true
result_eq timed_out timed_out = true
result_eq _ _ = false

abbrev pub thread_storage_live : Kernel → ℕ → Bool
thread_storage_live k thread = storage_live k.thread_storage thread

unfoldable pub wait_kind_valid : ThreadWaitKind → Bool
wait_kind_valid kind =
    kind_eq kind ipc_receive || kind_eq kind ipc_send || kind_eq kind process_exit

unfoldable pub wait_terminal : ThreadWaitResult → Bool
wait_terminal result =
    result_eq result completed
    || result_eq result cancelled
    || result_eq result peer_closed
    || result_eq result timed_out

abbrev pub wait_clear : Thread → Thread
wait_clear t = record t {
  wait_kind = wait_none;
  wait_result = result_none;
  wait_object = 0;
  wait_id = 0;
}

-- A store through a thread pointer.
abbrev pub put_thread : Kernel → ℕ → Thread → Kernel
put_thread k thread t = record k { threads = update k.threads thread t }

unfoldable pub thread_wait_active : Kernel → ℕ → Bool
thread_wait_active k thread =
    let t = k.threads thread in
    if not k.thread_initialized || not (thread_storage_live k thread) || not (nonzero t.id)
    then false
    else not (kind_eq t.wait_kind wait_none)
      || not (result_eq t.wait_result result_none)
      || nonzero t.wait_object
      || nonzero t.wait_id

-- What `thread_wait_begin` refuses.
unfoldable pub wait_refused : Kernel → ℕ → ThreadWaitKind → ℕ → Bool
unfolding wait_kind_valid thread_wait_active
wait_refused k thread kind object =
    let t = k.threads thread in
    not k.thread_initialized
    || not (thread_storage_live k thread)
    || not (thread == k.current_thread)
    || not (nonzero t.id)
    || not (nonzero object)
    || not (wait_kind_valid kind)
    || not (nonzero k.next_wait_id)
    || (not (state_eq t.state running) || not t.on_run_queue)
    || thread_wait_active k thread

-- The issuer wraps to zero, which refuses every later registration.
unfoldable pub thread_wait_begin : Kernel → ℕ → ThreadWaitKind → ℕ → Kernel × Bool
unfolding wait_refused
thread_wait_begin k thread kind object = if wait_refused k thread kind object then (k, false) else (
  record (put_thread k thread (record (k.threads thread) {
    wait_kind = kind;
    wait_result = pending;
    wait_object = object;
    wait_id = k.next_wait_id;
  })) { next_wait_id = add64 k.next_wait_id 1 },
  true,
)

unfoldable pub thread_wait_matches : Kernel → ℕ → ThreadWaitKind → ℕ → Bool
unfolding wait_kind_valid
thread_wait_matches k thread kind object =
    let t = k.threads thread in
    if not k.thread_initialized
      || not (thread_storage_live k thread)
      || not (nonzero t.id)
      || not (nonzero object)
      || not (wait_kind_valid kind)
      || not (nonzero t.wait_id)
    then false
    else kind_eq t.wait_kind kind && (t.wait_object == object)

unfoldable pub thread_wait_matches_id : Kernel → ℕ → ThreadWaitKind → ℕ → ℕ → Bool
unfolding thread_wait_matches
thread_wait_matches_id k thread kind object wait_id =
    nonzero wait_id
    && thread_wait_matches k thread kind object
    && ((k.threads thread).wait_id == wait_id)

-- The states in which a wait may be completed.
abbrev pub completable : Kernel → ℕ → Bool
completable k thread =
    let t = k.threads thread in
    state_eq t.state blocked
    || state_eq t.state ready
    || ((thread == k.current_thread) && state_eq t.state running)

unfoldable pub thread_wait_try_complete :
    Kernel → ℕ → ThreadWaitKind → ℕ → (wait_id : ℕ) → ThreadWaitResult → Kernel × Bool
unfolding wait_terminal thread_wait_matches_id
thread_wait_try_complete k thread kind object wait_id result =
    if not (wait_terminal result)
      || not (thread_wait_matches_id k thread kind object wait_id)
      || not (result_eq (k.threads thread).wait_result pending)
    then (k, false)
    else if not (completable k thread)
    then (k, false)
    else (put_thread k thread (record (k.threads thread) { wait_result = result }), true)

unfoldable pub thread_wait_cancel : Kernel → ℕ → ThreadWaitKind → ℕ → Kernel × Bool
unfolding thread_wait_matches thread_wait_try_complete
thread_wait_cancel k thread kind object =
    if not (thread_wait_matches k thread kind object)
    then (k, false)
    else thread_wait_try_complete k thread kind object (k.threads thread).wait_id cancelled

unfoldable pub thread_wait_cancelled : Kernel → ℕ → ThreadWaitKind → ℕ → Bool
unfolding thread_wait_matches
thread_wait_cancelled k thread kind object =
    if not (thread_wait_matches k thread kind object)
    then false
    else result_eq (k.threads thread).wait_result cancelled
      || result_eq (k.threads thread).wait_result peer_closed

unfoldable pub thread_wait_end : Kernel → ℕ → ThreadWaitKind → ℕ → Kernel × Bool
unfolding thread_wait_matches wait_terminal
thread_wait_end k thread kind object =
    let t = k.threads thread in
    if not (thread == k.current_thread)
      || not (thread_wait_matches k thread kind object)
      || not (state_eq t.state running)
      || not (wait_terminal t.wait_result)
    then (k, false)
    else (put_thread k thread (wait_clear t), true)

-- The result that `thread_wait_abort` leaves before it clears.
abbrev pub settled : ThreadWaitResult → ThreadWaitResult
settled result = if result_eq result pending then cancelled else result

unfoldable pub thread_wait_abort : Kernel → ℕ → ThreadWaitKind → ℕ → Kernel × Bool
unfolding thread_wait_matches wait_terminal
thread_wait_abort k thread kind object =
    let t = k.threads thread in
    if (thread == k.current_thread) || not (thread_wait_matches k thread kind object)
    then (k, false)
    else if not (state_eq t.state blocked) && not (state_eq t.state ready)
    then (k, false)
    else let t' = record t { wait_result = settled t.wait_result } in
      if not (wait_terminal t'.wait_result)
      then (put_thread k thread t', false)
      else (put_thread k thread (wait_clear t'), true)
