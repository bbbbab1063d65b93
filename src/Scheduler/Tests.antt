-- ===== src/Scheduler/Tests.antt =====
-- A run queue of three threads for kernel/scheduler.c: 0x7000 runs, 0x7100 and 0x7200 are ready.
use jcos.Prelude.{
  ℕ, ◌+◌, ◌*◌, ◌≡◌, refl, ◌⊎◌, true, false, some, List, [], ◌∷◌, arith, ◌==◌, if◌then◌else◌,
}
use jcos.Kernel.{Thread, ready, running}
use jcos.System.{System, thread_at}
use jcos.Sample.{booted_system, no_thread, no_queue}
use jcos.Scheduler.{scheduler_add, scheduler_unlink, scheduler_find_next_interrupt_thread}
use jcos.Scheduler.Traps.{scheduler_block_from_interrupt}
use jcos.Scheduler.Links.{member}
use jcos.Scheduler.Queue.{IsRing, Adds, scheduler_add_lem}
use jcos.Scheduler.Unlink.{without, scheduler_unlink_lem}
use jcos.Scheduler.Choice.{first_eligible, find_next_round_robin}
use jcos.Scheduler.Block.{BlockReturns, block_never_halts}
use jcos.Scheduler.Run.{
  SchedulerCall, adds, removes, wakes, blocks, switches, scheduler_run, run-IsRing,
}

abbrev ring : List ℕ
ring = 0x7000 ∷ 0x7100 ∷ 0x7200 ∷ []

-- A thread at any address, with a stack of four pages at its address times 16.
abbrev threads : ℕ → Thread
threads a = record no_thread {
  id = a;
  process = 0x8000;
  state = if a == 0x7000 then running else ready;
  interrupt_rsp = if a == 0x7000 then 0 else a * 16 + 0x1000;
  interrupt_context_ready = if a == 0x7000 then false else true;
  kernel_stack_base = a * 16;
  kernel_stack_top = a * 16 + 0x4000;
  kernel_stack_size = 0x4000;
  on_run_queue = member a ring;
  run_next =
      if a == 0x7000
      then 0x7100
      else if a == 0x7100
      then 0x7200
      else if a == 0x7200
      then 0x7000
      else 0;
}

abbrev three : System
three = record booted_system {
  kernel = record booted_system.kernel {
    threads = threads;
    thread_storage = ring;
    current_thread = 0x7000;
  };
  scheduler = record no_queue { run_head = 0x7000; run_tail = 0x7200; run_count = 3 };
}

three-IsRing : IsRing three ring
three-IsRing = record {
  shape = (refl, refl, refl, (refl, (refl, refl)));
  listed = λ a. refl;
  loose = λ a h. ground arith;
  once = refl;
  not_null = refl;
  counted = omega arith;
}

chooses_next : scheduler_find_next_interrupt_thread three 0x7000 ≡ some 0x7100
unfolding scheduler_find_next_interrupt_thread
chooses_next = refl

-- The middle thread is unlinked, and the first leads to the last.
unlinks_middle : (thread_at (scheduler_unlink three 0x7100).0 0x7000).run_next ≡ 0x7200
unfolding scheduler_unlink
unlinks_middle = refl

scheduler_add_example : Adds three 0x7300 ring (scheduler_add three 0x7300)
scheduler_add_example = scheduler_add_lem three 0x7300 ring three-IsRing (omega arith)

scheduler_unlink_example :
    ((member 0x7100 ring ≡ true)
      × ((scheduler_unlink three 0x7100).1 ≡ true)
      × IsRing (scheduler_unlink three 0x7100).0 (without 0x7100 ring))
    ⊎ ((member 0x7100 ring ≡ false) × (scheduler_unlink three 0x7100 ≡ (three, false)))
scheduler_unlink_example = scheduler_unlink_lem three 0x7100 ring three-IsRing

find_next_round_robin_example :
    scheduler_find_next_interrupt_thread three 0x7000 ≡ first_eligible three (0x7100 ∷ 0x7200 ∷ [])
find_next_round_robin_example =
    find_next_round_robin three 0x7000 [] (0x7100 ∷ 0x7200 ∷ []) three-IsRing

block_never_halts_example :
    BlockReturns three 0x71000 ring (scheduler_block_from_interrupt three 0x71000)
block_never_halts_example = block_never_halts three 0x71000 ring three-IsRing

abbrev calls : List SchedulerCall
calls = adds 0x7300 ∷ blocks 0x71000 ∷ removes 0x7200 ∷ wakes 0x7000 ∷ switches 0x72800 true ∷ []

run-IsRing_example :
    (s' : System) × (scheduler_run three calls ≡ some s') × ((ys : List ℕ) × IsRing s' ys)
run-IsRing_example = run-IsRing three calls ring three-IsRing (omega arith)
