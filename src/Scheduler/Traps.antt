-- ===== src/Scheduler/Traps.antt =====
-- The interrupt side of kernel/scheduler.c: yielding, blocking, preemption and the
-- resume from the idle context; the exit is not modelled.
-- A trap returns the frame that the interrupt returns through; `none` is a halted processor.
use jcos.Prelude.{
  ℕ, Bool, true, false, not, ◌&&◌, ◌||◌, Option, none, some, ltb, leb, if◌then◌else◌, nonzero,
  add64, sub64,
}
use jcos.Kernel.{running, blocked, update}
use jcos.Waits.{state_eq}
use jcos.System.{System, thread_at, store_thread}
use jcos.Activation.{thread_activate, thread_scheduler_activate_from_idle}
use jcos.Scheduler.{
  scheduler_interrupt_frame_valid, scheduler_unlink, scheduler_find_next_interrupt_thread,
  scheduler_find_idle_ready,
}

-- `frame->rax = value`
abbrev pub store_rax : System → (frame value : ℕ) → System
store_rax s frame value = record s {
  frames = update s.frames frame (record (s.frames frame) { rax = value });
}

-- The tests on the current thread that every trap makes.
abbrev pub runs_queued : System → ℕ → Bool
runs_queued s thread =
    let t = thread_at s thread in
    nonzero thread
    && nonzero t.id
    && t.on_run_queue
    && state_eq t.state running
    && nonzero t.run_next

-- `thread->interrupt_rsp = frame` with its flag; a frame of zero clears both.
abbrev pub save_context : System → (thread frame : ℕ) → System
save_context s thread frame =
    store_thread s thread (record (thread_at s thread) {
      interrupt_rsp = frame;
      interrupt_context_ready = nonzero frame;
    })

abbrev pub count_reschedules : System → System
count_reschedules s = record s {
  scheduler = record s.scheduler { reschedule_count = add64 s.scheduler.reschedule_count 1 };
}

abbrev pub count_switch : System → (timer : Bool) → System
count_switch s timer =
    if timer
    then record s {
      scheduler = record s.scheduler { preemption_count = add64 s.scheduler.preemption_count 1 };
    }
    else count_reschedules s

-- The switch of `scheduler_switch_ready_from_interrupt` to the thread that it chose.
unfoldable pub switch_to : System → (frame : ℕ) → (timer : Bool) → (current chosen : ℕ) → System × ℕ
switch_to s frame timer current chosen =
    let chosen_frame = (thread_at s chosen).interrupt_rsp in
    let s₁ = if timer then s else store_rax s frame 1 in
    let s₂ = save_context s₁ current frame in
    let (s₃, activated) = thread_activate s₂ chosen in
    let undone = save_context s₃ current 0 in
    if not activated
    then (if timer then undone else store_rax undone frame 0, frame)
    else (count_switch (save_context s₃ chosen 0) timer, chosen_frame)

unfoldable pub scheduler_switch_ready_from_interrupt :
    System → (frame : ℕ) → (timer : Bool) → System × ℕ
unfolding switch_to scheduler_find_next_interrupt_thread
scheduler_switch_ready_from_interrupt s frame timer =
    let q = s.scheduler in
    let current = s.kernel.current_thread in
    if not (nonzero frame)
      || not q.initialized
      || not (nonzero q.run_head)
      || not (nonzero q.run_tail)
      || ltb q.run_count 2
    then (s, frame)
    else if not (runs_queued s current)
    then (s, frame)
    else if not (scheduler_interrupt_frame_valid s current frame)
    then (s, frame)
    else elim (scheduler_find_next_interrupt_thread s current) [
      | none ↦ (if timer then s else store_rax s frame 1, frame)
      | some chosen ↦ switch_to s frame timer current chosen
    ]

-- `scheduler_block_from_interrupt` once it has switched to `chosen`.
unfoldable pub park : System → (thread chosen chosen_frame : ℕ) → Option (System × ℕ)
unfolding scheduler_unlink
park s thread chosen chosen_frame =
    let (s₁, unlinked) = scheduler_unlink s thread in
    let s₂ = store_thread s₁ thread (record (thread_at s₁ thread) { state = blocked }) in
    if not unlinked then none else some (count_reschedules (save_context s₂ chosen 0), chosen_frame)

-- The switch of `scheduler_block_from_interrupt` to the thread that it chose.
unfoldable pub block_to : System → (frame thread chosen : ℕ) → Option (System × ℕ)
unfolding park
block_to s frame thread chosen =
    let chosen_frame = (thread_at s chosen).interrupt_rsp in
    let s₂ = save_context (store_rax s frame 1) thread frame in
    let (s₃, activated) = thread_activate s₂ chosen in
    let parked = park s₃ thread chosen chosen_frame in
    if not activated then some (store_rax (save_context s₃ thread 0) frame 0, frame) else parked

unfoldable pub scheduler_block_from_interrupt : System → (frame : ℕ) → Option (System × ℕ)
unfolding block_to scheduler_find_next_interrupt_thread
scheduler_block_from_interrupt s frame =
    let refused = store_rax s frame 0 in
    let q = s.scheduler in
    let thread = s.kernel.current_thread in
    if not (nonzero frame)
    then some (s, frame)
    else if not q.initialized
        || not (nonzero q.run_head)
        || not (nonzero q.run_tail)
        || ltb q.run_count 2
    then some (refused, frame)
    else if not (runs_queued s thread) || not (scheduler_interrupt_frame_valid s thread frame)
    then some (refused, frame)
    else elim (scheduler_find_next_interrupt_thread s thread) [
      | none ↦ some (refused, frame)
      | some chosen ↦ block_to refused frame thread chosen
    ]

-- `scheduler_idle_runtime_frame_valid`; an InterruptFrame has 160 bytes.
unfoldable pub scheduler_idle_runtime_frame_valid : System → (frame : ℕ) → Bool
scheduler_idle_runtime_frame_valid s frame =
    let q = s.scheduler in
    nonzero frame
    && q.idle_context_ready
    && nonzero q.idle_stack_base
    && nonzero q.idle_stack_top
    && ltb q.idle_stack_base q.idle_stack_top
    && leb q.idle_stack_base frame
    && leb frame (sub64 q.idle_stack_top 160)

-- The end of `scheduler_resume_from_idle`.
unfoldable pub resume_to : System → (chosen : ℕ) → Option (System × ℕ)
unfolding thread_scheduler_activate_from_idle
resume_to s chosen =
    let chosen_frame = (thread_at s chosen).interrupt_rsp in
    let (s₁, activated) = thread_scheduler_activate_from_idle s chosen in
    let s₂ = save_context s₁ chosen 0 in
    let q = s₂.scheduler in
    if not activated
    then none
    else some (
      record s₂ {
        scheduler = record q {
          idle_active = false;
          idle_resume_count = add64 q.idle_resume_count 1;
          reschedule_count = add64 q.reschedule_count 1;
        };
      },
      chosen_frame,
    )

unfoldable pub scheduler_resume_from_idle : System → (frame : ℕ) → Option (System × ℕ)
unfolding scheduler_idle_runtime_frame_valid resume_to scheduler_find_idle_ready
scheduler_resume_from_idle s frame =
    if not (nonzero frame) || not s.scheduler.idle_active
    then some (s, frame)
    else if not (scheduler_idle_runtime_frame_valid s frame)
    then none
    else if not (nonzero s.scheduler.run_count)
    then some (s, frame)
    else elim (scheduler_find_idle_ready s) [ none ↦ none | some chosen ↦ resume_to s chosen ]

unfoldable pub scheduler_preempt : System → (frame : ℕ) → Option (System × ℕ)
unfolding scheduler_resume_from_idle scheduler_switch_ready_from_interrupt
scheduler_preempt s frame =
    if s.scheduler.idle_active
    then scheduler_resume_from_idle s frame
    else if not (nonzero frame) || not s.scheduler.preemption_enabled
    then some (s, frame)
    else some (scheduler_switch_ready_from_interrupt s frame true)
