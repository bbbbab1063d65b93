-- ===== src/System.antt =====
-- The processes of kernel/process.h, the run queue of kernel/scheduler.c and the processor's registers,
-- beside the kernel's objects: what the scheduler and IPC work on.
use jcos.Prelude.{ℕ, Bool, not, ◌||◌, if◌then◌else◌, List}
use jcos.ObjectStorage.{storage_live}
use jcos.Kernel.{Kernel, Thread}
use jcos.Waits.{put_thread}
use jcos.Timeouts.{IpcTimedWait, Timer}

pub data ProcessExitReason : Type 0 where
  exit_none exit_normal exit_fault exit_terminated : ProcessExitReason

pub record ProcessExitInfo : Type 0 where
  pub reason : ProcessExitReason
  pub process_id : ℕ
  pub thread_id : ℕ
  pub vector : ℕ
  pub error_code : ℕ
  pub rip : ℕ
  pub cr2 : ℕ

-- `capabilities` is the address of the table that the structure holds.
pub record Process : Type 0 where
  pub id : ℕ
  pub address_space : ℕ
  pub capabilities : ℕ
  pub thread_head : ℕ
  pub thread_tail : ℕ
  pub thread_count : ℕ
  pub exit_info : ProcessExitInfo
  pub exit_queue : ℕ
  pub exit_queue_id : ℕ
  pub kernel : Bool
  pub initialized : Bool

-- The registers of an interrupt's frame that the kernel reads or writes, and the return stack's.
pub record InterruptFrame : Type 0 where
  pub rax : ℕ
  pub rip : ℕ
  pub cs : ℕ
  pub rflags : ℕ
  pub rsp : ℕ
  pub ss : ℕ

-- The statics of kernel/scheduler.c.
pub record Scheduler : Type 0 where
  pub run_head : ℕ
  pub run_tail : ℕ
  pub run_count : ℕ
  pub initialized : Bool
  pub reschedule_count : ℕ
  pub preemption_enabled : Bool
  pub preemption_count : ℕ
  pub idle_wait_count : ℕ
  pub idle_stack_physical : ℕ
  pub idle_stack_base : ℕ
  pub idle_stack_top : ℕ
  pub idle_context_ready : Bool
  pub idle_active : Bool
  pub idle_entry_count : ℕ
  pub idle_resume_count : ℕ

-- `kernel_process` is the address of g_kernel_process, `frames` the frames in memory by address, and
-- `rsp0` and `cr3` the registers that a switch loads; `timed_waits` is the table of kernel/ipc.c.
pub record System : Type 0 where
  pub kernel : Kernel
  pub scheduler : Scheduler
  pub processes : ℕ → Process
  pub process_storage : List ℕ
  pub process_initialized : Bool
  pub kernel_process : ℕ
  pub frames : ℕ → InterruptFrame
  pub rsp0 : ℕ
  pub cr3 : ℕ
  pub timed_waits : List IpcTimedWait
  pub timer : Timer

abbrev pub thread_at : System → ℕ → Thread
thread_at s thread = s.kernel.threads thread

-- A store through a thread pointer.
abbrev pub store_thread : System → ℕ → Thread → System
store_thread s thread t = record s { kernel = put_thread s.kernel thread t }

unfoldable pub process_storage_live : System → ℕ → Bool
process_storage_live s process = storage_live s.process_storage process

unfoldable pub process_address_space : System → ℕ → ℕ
unfolding process_storage_live
process_address_space s process =
    if not s.process_initialized
      || not (process_storage_live s process)
      || not (s.processes process).initialized
    then 0
    else (s.processes process).address_space

unfoldable pub process_capabilities : System → ℕ → ℕ
unfolding process_storage_live
process_capabilities s process =
    if not s.process_initialized
      || not (process_storage_live s process)
      || not (s.processes process).initialized
    then 0
    else (s.processes process).capabilities

unfoldable pub process_kernel : System → ℕ
process_kernel s =
    if not s.process_initialized || not (s.processes s.kernel_process).initialized
    then 0
    else s.kernel_process
