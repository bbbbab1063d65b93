-- ===== src/Activation.antt =====
-- The switches of kernel/thread.c: what makes another thread current. Each runs with interrupts off.
use jcos.Prelude.{ℕ, ◌*◌, ◌/◌, ◌%◌, Bool, true, false, not, ◌||◌, ◌==◌, if◌then◌else◌, nonzero}
use jcos.Kernel.{ready, running, dead, address_space_cr3}
use jcos.Waits.{state_eq, thread_storage_live, thread_wait_active}
use jcos.System.{System, thread_at, store_thread, process_address_space, process_kernel}

-- `gdt_set_rsp0`, and the load of CR3 where its frame is another.
abbrev pub load_space : System → (top cr3 : ℕ) → System
load_space s top cr3 = record s {
  rsp0 = top / 16 * 16;
  cr3 = if s.cr3 / 4096 * 4096 == cr3 then s.cr3 else cr3;
}

-- The CR3 value of a process' address space, zero where it has none.
unfoldable pub space_cr3 : System → ℕ → ℕ
unfolding process_address_space
space_cr3 s process =
    let space = process_address_space s process in
    if nonzero space then address_space_cr3 s.kernel space else 0

-- What `thread_activate` refuses of any thread.
unfoldable pub not_activable : System → ℕ → Bool
unfolding space_cr3
not_activable s thread =
    let t = thread_at s thread in
    not s.kernel.thread_initialized
    || not (nonzero s.kernel.current_thread)
    || not (thread_storage_live s.kernel thread)
    || not (nonzero t.id)
    || not (nonzero t.process)
    || not (nonzero t.kernel_stack_top)
    || nonzero (t.kernel_stack_top % 16)
    || not (nonzero (space_cr3 s t.process))

-- The stores of a switch from `previous` to `thread`.
abbrev pub switch_current : System → (previous thread : ℕ) → System
switch_current s previous thread =
    let s₁ = store_thread s previous (record (thread_at s previous) { state = ready }) in
    let s₂ = store_thread s₁ thread (record (thread_at s₁ thread) { state = running }) in
    record s₂ { kernel = record s₂.kernel { current_thread = thread } }

unfoldable pub thread_activate : System → ℕ → System × Bool
unfolding not_activable
thread_activate s thread =
    let t = thread_at s thread in
    let previous = s.kernel.current_thread in
    let loaded = load_space s t.kernel_stack_top (space_cr3 s t.process) in
    if not_activable s thread
    then (s, false)
    else if thread == previous
    then if not (state_eq t.state running) then (s, false) else (loaded, true)
    else if not (state_eq t.state ready)
    then (s, false)
    else if not (state_eq (thread_at s previous).state running)
    then (s, false)
    else (switch_current loaded previous thread, true)

unfoldable pub thread_scheduler_enter_idle : System → ℕ → System × Bool
unfolding space_cr3 process_kernel
thread_scheduler_enter_idle s idle_stack_top =
    let previous = s.kernel.current_thread in
    let t = thread_at s previous in
    let owner = process_kernel s in
    let space = process_address_space s owner in
    if not s.kernel.thread_initialized
      || not (nonzero previous)
      || not (nonzero idle_stack_top)
      || nonzero (idle_stack_top % 16)
    then (s, false)
    else if not (thread_storage_live s.kernel previous)
        || not (nonzero t.id)
        || not (state_eq t.state dead)
        || t.on_run_queue
        || nonzero t.run_next
        || t.interrupt_context_ready
        || nonzero t.interrupt_rsp
        || thread_wait_active s.kernel previous
    then (s, false)
    else if not (nonzero owner)
        || not (s.processes owner).kernel
        || not (nonzero space)
        || not (s.kernel.spaces space).kernel
        || not (nonzero (space_cr3 s owner))
    then (s, false)
    else let loaded = load_space s idle_stack_top (space_cr3 s owner) in
      (record loaded { kernel = record loaded.kernel { current_thread = 0 } }, true)

unfoldable pub thread_scheduler_activate_from_idle : System → ℕ → System × Bool
unfolding space_cr3
thread_scheduler_activate_from_idle s thread =
    let t = thread_at s thread in
    if not s.kernel.thread_initialized
      || nonzero s.kernel.current_thread
      || not (thread_storage_live s.kernel thread)
      || not (nonzero t.id)
      || not (nonzero t.process)
      || not (state_eq t.state ready)
      || not t.on_run_queue
      || not (nonzero t.run_next)
      || not t.interrupt_context_ready
      || not (nonzero t.interrupt_rsp)
      || not (nonzero t.kernel_stack_top)
      || nonzero (t.kernel_stack_top % 16)
      || not (nonzero (space_cr3 s t.process))
    then (s, false)
    else let loaded = load_space s t.kernel_stack_top (space_cr3 s t.process) in
      let started =
        store_thread loaded thread (record (thread_at loaded thread) { state = running }) in
      (record started { kernel = record started.kernel { current_thread = thread } }, true)
