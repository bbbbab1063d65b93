-- ===== src/Scheduler.antt =====
-- The run queue of kernel/scheduler.c: a ring of threads linked by run_next, from g_run_head to
-- g_run_tail. `none` is a call that halts the processor.
pub mod Traps
pub mod Links
pub mod Queue
pub mod Unlink
pub mod Choice
pub mod Block
pub mod Run
mod Tests
use jcos.Prelude.{
  ℕ, zero, suc, ◌+◌, ◌-◌, ◌*◌, ◌≡◌, refl, Bool, true, false, not, ◌&&◌, ◌||◌, Option, none, some,
  ltb, leb, ◌==◌, if◌then◌else◌, nonzero, add64, sub64,
}
use jcos.Kernel.{Kernel, Thread, ready, running, blocked, dead}
use jcos.Waits.{state_eq, thread_wait_active}
use jcos.System.{System, Scheduler, thread_at, store_thread}

-- `sizeof(InterruptFrame) + sizeof(InterruptStackFrame)`
abbrev pub frame_bytes : ℕ
frame_bytes = 176

unfoldable pub scheduler_interrupt_frame_valid : System → (thread frame : ℕ) → Bool
scheduler_interrupt_frame_valid s thread frame =
    let t = thread_at s thread in
    if not (nonzero thread)
      || not (nonzero frame)
      || not (nonzero t.kernel_stack_base)
      || not (nonzero t.kernel_stack_top)
      || leb t.kernel_stack_top t.kernel_stack_base
    then false
    else if ltb t.kernel_stack_size frame_bytes
    then false
    else if ltb frame t.kernel_stack_base
    then false
    else if ltb (sub64 t.kernel_stack_top frame_bytes) frame
    then false
    else true

-- `thread->run_next = next`
abbrev pub store_next : System → (thread next : ℕ) → System
store_next s thread next = store_thread s thread (record (thread_at s thread) { run_next = next })

-- The stores of `scheduler_add` on an empty queue.
unfoldable pub link_only : System → ℕ → System
link_only s thread =
    record (store_thread s thread
      (record (thread_at s thread) { run_next = thread; on_run_queue = true })) {
        scheduler = record s.scheduler { run_head = thread; run_tail = thread; run_count = 1 };
      }

-- The stores of `scheduler_add` on a queue that has threads.
unfoldable pub link_last : System → ℕ → System
link_last s thread =
    let q = s.scheduler in
    let s₁ = store_next s thread q.run_head in
    let s₂ = store_next s₁ q.run_tail thread in
    record (store_thread s₂ thread (record (thread_at s₂ thread) { on_run_queue = true })) {
      scheduler = record q { run_tail = thread; run_count = add64 q.run_count 1 };
    }

-- The tests of `scheduler_add` on the thread alone.
unfoldable pub add_refused : System → ℕ → Bool
unfolding scheduler_interrupt_frame_valid
add_refused s thread =
    let t = thread_at s thread in
    not s.scheduler.initialized
    || not (nonzero thread)
    || not (nonzero t.id)
    || t.on_run_queue
    || not (state_eq t.state ready)
    || not t.interrupt_context_ready
    || not (nonzero t.interrupt_rsp)
    || not (scheduler_interrupt_frame_valid s thread t.interrupt_rsp)

unfoldable pub scheduler_add : System → ℕ → System × Bool
unfolding add_refused link_only link_last
scheduler_add s thread =
    let q = s.scheduler in
    if add_refused s thread
    then (s, false)
    else if not (nonzero q.run_count)
    then if not q.idle_active || nonzero q.run_head || nonzero q.run_tail
      then (s, false)
      else (link_only s thread, true)
    else if not (nonzero q.run_head) || not (nonzero q.run_tail)
    then (s, false)
    else (link_last s thread, true)

-- The loop of `scheduler_unlink`: the thread before `thread`, or `none` where it returns false.
unfoldable pub find_previous : (ℕ → Thread) → (thread rounds previous : ℕ) → Option ℕ
find_previous m thread zero previous = none
find_previous m thread (suc rounds) previous =
    let next = (m previous).run_next in
    let rest = find_previous m thread rounds next in
    if not (nonzero previous) || not (nonzero next)
    then none
    else if next == thread
    then some previous
    else rest

-- What `scheduler_unlink` does once it has the thread before.
unfoldable pub unlink_after : System → (thread previous : ℕ) → System
unlink_after s thread previous =
    let q = s.scheduler in
    let s₁ = store_next s previous (thread_at s thread).run_next in
    let head = if q.run_head == thread then (thread_at s₁ thread).run_next else q.run_head in
    let tail = if q.run_tail == thread then previous else q.run_tail in
    let s₂ = store_next s₁ tail head in
    record s₂ { scheduler = record q { run_head = head; run_tail = tail } }

-- The stores that end `scheduler_unlink`.
abbrev pub detach : System → ℕ → System
detach s thread =
    record (store_thread s thread
      (record (thread_at s thread) { run_next = 0; on_run_queue = false })) {
        scheduler = record s.scheduler { run_count = sub64 s.scheduler.run_count 1 };
      }

unfoldable pub scheduler_unlink : System → ℕ → System × Bool
unfolding find_previous unlink_after
scheduler_unlink s thread =
    let q = s.scheduler in
    if not (nonzero thread)
      || not (thread_at s thread).on_run_queue
      || not (nonzero q.run_head)
      || not (nonzero q.run_tail)
      || not (nonzero q.run_count)
    then (s, false)
    else elim (find_previous s.kernel.threads thread q.run_count q.run_head) [
      | none ↦ (s, false)
      | some previous ↦
          if q.run_count == 1
          then if not (q.run_head == thread) || not (q.run_tail == thread) then (s, false) else (
            detach (record s { scheduler = record q { run_head = 0; run_tail = 0 } }) thread,
            true,
          )
          else (detach (unlink_after s thread previous) thread, true)
    ]

-- A thread that the scheduler can switch to.
unfoldable pub eligible : System → ℕ → Bool
unfolding scheduler_interrupt_frame_valid
eligible s candidate =
    let t = thread_at s candidate in
    t.on_run_queue
    && state_eq t.state ready
    && t.interrupt_context_ready
    && nonzero t.interrupt_rsp
    && scheduler_interrupt_frame_valid s candidate t.interrupt_rsp

-- The loop of `scheduler_find_next_interrupt_thread`. The frame is the thread's interrupt_rsp.
unfoldable pub find_next : System → (current rounds candidate : ℕ) → Option ℕ
unfolding eligible
find_next s current zero candidate = none
find_next s current (suc rounds) candidate =
    let rest = find_next s current rounds (thread_at s candidate).run_next in
    if not (nonzero candidate)
    then none
    else if not (candidate == current) && eligible s candidate
    then some candidate
    else rest

unfoldable pub scheduler_find_next_interrupt_thread : System → ℕ → Option ℕ
unfolding find_next
scheduler_find_next_interrupt_thread s current =
    if not (nonzero current)
      || not (nonzero (thread_at s current).run_next)
      || ltb s.scheduler.run_count 2
    then none
    else find_next s current (s.scheduler.run_count - 1) (thread_at s current).run_next

-- The loop of `scheduler_find_idle_ready`.
unfoldable pub find_ready : System → (rounds candidate : ℕ) → Option ℕ
unfolding eligible
find_ready s zero candidate = none
find_ready s (suc rounds) candidate =
    let next = (thread_at s candidate).run_next in
    let rest = find_ready s rounds next in
    if not (nonzero candidate) || not (nonzero next)
    then none
    else if eligible s candidate
    then some candidate
    else rest

unfoldable pub scheduler_find_idle_ready : System → Option ℕ
unfolding find_ready
scheduler_find_idle_ready s =
    let q = s.scheduler in
    if not q.idle_active
      || not (nonzero q.run_head)
      || not (nonzero q.run_tail)
      || not (nonzero q.run_count)
    then none
    else find_ready s q.run_count q.run_head

unfoldable pub scheduler_remove : System → ℕ → System × Bool
unfolding scheduler_unlink
scheduler_remove s thread =
    if not s.scheduler.initialized || not (nonzero thread) || not (thread_at s thread).on_run_queue
    then (s, false)
    else if thread == s.kernel.current_thread
    then (s, false)
    else scheduler_unlink s thread

unfoldable pub scheduler_wake : System → ℕ → System × Bool
unfolding scheduler_add
scheduler_wake s thread =
    let t = thread_at s thread in
    if not s.scheduler.initialized
      || not (nonzero thread)
      || not (nonzero t.id)
      || (thread == s.kernel.current_thread)
      || t.on_run_queue
      || nonzero t.run_next
      || not t.interrupt_context_ready
      || not (nonzero t.interrupt_rsp)
      || not (state_eq t.state blocked)
    then (s, false)
    else if not (scheduler_interrupt_frame_valid s thread t.interrupt_rsp)
    then (s, false)
    else let woken = store_thread s thread (record t { state = ready }) in
      let (added, done) = scheduler_add woken thread in
      if done
      then (added, true)
      else (store_thread added thread (record (thread_at added thread) { state = blocked }), false)

unfoldable pub scheduler_can_terminate_thread : System → ℕ → Bool
scheduler_can_terminate_thread s thread =
    let t = thread_at s thread in
    if not s.scheduler.initialized
      || not (nonzero thread)
      || (thread == s.kernel.current_thread)
      || not (nonzero t.id)
    then false
    else if state_eq t.state ready
    then if t.on_run_queue
      then nonzero t.run_next && t.interrupt_context_ready && nonzero t.interrupt_rsp
      else not (nonzero t.run_next)
    else if state_eq t.state blocked
    then not t.on_run_queue
      && not (nonzero t.run_next)
      && t.interrupt_context_ready
      && nonzero t.interrupt_rsp
    else false

-- The stores that end `scheduler_terminate_thread`.
abbrev pub bury : System → ℕ → System
bury s thread = store_thread s thread (record (thread_at s thread) {
  state = dead;
  interrupt_rsp = 0;
  interrupt_context_ready = false;
  run_next = 0;
  on_run_queue = false;
})

unfoldable pub scheduler_terminate_thread : System → ℕ → System × Bool
unfolding scheduler_can_terminate_thread scheduler_unlink
scheduler_terminate_thread s thread =
    let t = thread_at s thread in
    if not (scheduler_can_terminate_thread s thread)
    then (s, false)
    else if thread_wait_active s.kernel thread
    then (s, false)
    else if state_eq t.state ready && t.on_run_queue
    then (let (unlinked, done) = scheduler_unlink s thread in
        if not done then (unlinked, false) else (bury unlinked thread, true))
    else (bury s thread, true)
