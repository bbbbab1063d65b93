-- ===== src/Waits/Tests.antt =====
-- A concrete wait of kernel/thread.c: thread 0x7000 is current and waits on an endpoint.
use jcos.Prelude.{◌≡◌, ◌≢◌, ◌⊎◌, refl, true, false, List, [], ◌∷◌, arith}
use jcos.ObjectStorage.{storage_live, object_storage_find}
use jcos.Kernel.{
  Kernel, Thread, running, blocked, ipc_receive, wait_none, result_none, completed, timed_out,
}
use jcos.Sample.{boot}
use jcos.Waits.{thread_wait_begin, thread_wait_try_complete}
use jcos.Waits.Moves.{WaitCall, wait_run, wait_step, begins, ends, schedules}
use jcos.Waits.Tokens.{IsIssued, run-IsIssued, completed_at_most_once, tokens_below}

abbrev the_thread : Thread
the_thread = record {
  id = 5;
  process = 0x8000;
  process_prev = 0;
  process_next = 0;
  state = running;
  interrupt_rsp = 0;
  kernel_stack_base = 0;
  kernel_stack_top = 0;
  kernel_stack_size = 0;
  interrupt_context_ready = false;
  wait_kind = wait_none;
  wait_result = result_none;
  wait_object = 0;
  wait_id = 0;
  run_next = 0x7000;
  on_run_queue = true;
  capability_refs = 0;
}

abbrev idle : Kernel
idle = record boot {
  threads = λ _. the_thread;
  thread_storage = 0x7000 ∷ [];
  thread_initialized = true;
  current_thread = 0x7000;
}

idle-IsIssued : IsIssued idle
unfolding tokens_below
idle-IsIssued = record { word = omega arith; below = λ t. ground arith }

abbrev start : List WaitCall
start = begins 0x7000 ipc_receive 0x5000 ∷ schedules 0x7000 blocked false 0x7100 ∷ []

run-IsIssued_example : IsIssued (wait_run idle start)
run-IsIssued_example = run-IsIssued idle start idle-IsIssued

abbrev woken : Kernel
woken = (thread_wait_try_complete (wait_run idle start) 0x7000 ipc_receive 0x5000 1 completed).0

complete_runs :
    thread_wait_try_complete (wait_run idle start) 0x7000 ipc_receive 0x5000 1 completed
    ≡ (woken, true)
unfolding wait_run wait_step thread_wait_begin thread_wait_try_complete storage_live
    object_storage_find
complete_runs = refl

abbrev resume : List WaitCall
resume =
    schedules 0x7000 running true 0x7000
    ∷ ends 0x7000 ipc_receive 0x5000
    ∷ begins 0x7000 ipc_receive 0x5000
    ∷ []

completed_at_most_once_example :
    (thread_wait_try_complete (wait_run woken resume) 0x7000 ipc_receive 0x5000 1 timed_out
      ≡ (wait_run woken resume, false))
    × ((((wait_run woken resume).threads 0x7000).wait_id ≢ 1)
        ⊎ (((wait_run woken resume).threads 0x7000).wait_result ≡ completed))
completed_at_most_once_example =
    completed_at_most_once (wait_run idle start) woken 0x7000 ipc_receive 0x5000 1 completed
      (run-IsIssued idle start idle-IsIssued) complete_runs resume ipc_receive 0x5000 timed_out
