-- ===== src/Timeouts.antt =====
-- The timed waits of kernel/ipc.c: the table of deadlines that the timer polls, one entry for each
-- wait on an endpoint that has a timeout.
pub mod Table
pub mod Deadlines
mod Tests
use jcos.Prelude.{
  ℕ, zero, suc, ◌+◌, ◌*◌, ◌-◌, ◌^◌, ◌≡◌, refl, Bool, true, false, not, ◌&&◌, ◌||◌, Option, none,
  some, List, [], ◌∷◌, ltb, ◌==◌, if◌then◌else◌, nonzero, add64, sub64, set, get_or, length,
}
use jcos.Kernel.{Kernel, ThreadWaitKind, wait_none}
use jcos.Waits.{kind_eq, thread_wait_matches_id}

pub record IpcTimedWait : Type 0 where
  pub thread : ℕ
  pub endpoint : ℕ
  pub thread_id : ℕ
  pub endpoint_id : ℕ
  pub wait_id : ℕ
  pub deadline : ℕ
  pub kind : ThreadWaitKind
  pub occupied : Bool

-- `k_memset(slot, 0, sizeof(*slot))`
abbrev pub empty_wait : IpcTimedWait
empty_wait = record {
  thread = 0;
  endpoint = 0;
  thread_id = 0;
  endpoint_id = 0;
  wait_id = 0;
  deadline = 0;
  kind = wait_none;
  occupied = false;
}

-- IPC_TIMEOUT_MAX_TICKS
abbrev pub timeout_max_ticks : ℕ
timeout_max_ticks = 0x7FFFFFFFFFFFFFFF

-- `(s64)(now - deadline) >= 0`: the sign bit of the difference is clear.
unfoldable pub ipc_deadline_reached : ℕ → ℕ → Bool
ipc_deadline_reached now deadline = ltb (sub64 now deadline) (2 ^ 63)

-- What `timer_initialized` and `timer_ticks` of kernel/timer.c answer.
pub record Timer : Type 0 where
  pub initialized : Bool
  pub ticks : ℕ

-- A registration that a new one must not repeat.
abbrev pub duplicates : IpcTimedWait → (thread endpoint : ℕ) → ThreadWaitKind → ℕ → Bool
duplicates w thread endpoint kind id =
    (w.thread == thread) || ((w.endpoint == endpoint) && kind_eq w.kind kind && (w.wait_id == id))

-- The loop of `ipc_timeout_register` from entry `i` on, in a table of `capacity` entries: the first
-- entry that is empty, or `none` where an entry repeats the registration.
unfoldable pub find_empty :
    List IpcTimedWait → (capacity i empty thread endpoint : ℕ) → ThreadWaitKind → ℕ → Option ℕ
find_empty [] capacity i empty thread endpoint kind id = some empty
find_empty (w ∷ ws) capacity i empty thread endpoint kind id =
    let first = if not w.occupied && (empty == capacity) then i else empty in
    let rest = find_empty ws capacity (i + 1) first thread endpoint kind id in
    if w.occupied && duplicates w thread endpoint kind id then none else rest

-- The entry that `ipc_timeout_register` writes.
abbrev pub timed_wait :
    Kernel → Timer → (thread endpoint : ℕ) → ThreadWaitKind → (id ticks : ℕ) → IpcTimedWait
timed_wait k timer thread endpoint kind id ticks = record {
  thread = thread;
  endpoint = endpoint;
  thread_id = (k.threads thread).id;
  endpoint_id = (k.endpoints endpoint).id;
  wait_id = id;
  deadline = add64 timer.ticks ticks;
  kind = kind;
  occupied = true;
}

unfoldable pub ipc_timeout_register :
    Kernel
    → Timer
    → List IpcTimedWait
    → (thread endpoint : ℕ) → ThreadWaitKind
    → (id ticks : ℕ) → List IpcTimedWait × Bool
ipc_timeout_register k timer waits thread endpoint kind id ticks =
    if not timer.initialized
      || not (nonzero ticks)
      || ltb timeout_max_ticks ticks
      || not (thread_wait_matches_id k thread kind endpoint id)
    then (waits, false)
    else elim (find_empty waits (length waits) 0 (length waits) thread endpoint kind id) [
      | none ↦ (waits, false)
      | some empty ↦
          if empty == length waits
          then (waits, false)
          else (set waits empty (timed_wait k timer thread endpoint kind id ticks), true)
    ]

-- The test of the loop of `ipc_timeout_unregister`.
abbrev pub registers : IpcTimedWait → (thread endpoint : ℕ) → ThreadWaitKind → ℕ → Bool
registers w thread endpoint kind id =
    w.occupied
    && (w.thread == thread)
    && (w.endpoint == endpoint)
    && kind_eq w.kind kind
    && (w.wait_id == id)

unfoldable pub ipc_timeout_unregister :
    List IpcTimedWait → (thread endpoint : ℕ) → ThreadWaitKind → ℕ → List IpcTimedWait × Bool
ipc_timeout_unregister [] thread endpoint kind id = ([], false)
ipc_timeout_unregister (w ∷ ws) thread endpoint kind id =
    let rest = ipc_timeout_unregister ws thread endpoint kind id in
    if registers w thread endpoint kind id then (empty_wait ∷ ws, true) else (w ∷ rest.0, rest.1)

-- `ipc_timeout_test_active_count`
unfoldable pub active_count : List IpcTimedWait → ℕ
active_count [] = 0
active_count (w ∷ ws) = if w.occupied then active_count ws + 1 else active_count ws
