-- ===== src/Timeouts/Tests.antt =====
-- A concrete timed wait of kernel/ipc.c: thread 0x7000 waits for a message on endpoint 0x5000.
use jcos.Prelude.{
  length, ◌⊎◌, zero, suc, ◌+◌, ◌^◌, ◌-◌, ◌≡◌, refl, true, false, List, [], ◌∷◌, arith, add64, leb,
}
use jcos.Kernel.{Kernel, Thread, running, ipc_receive, pending}
use jcos.Sample.{boot, no_thread}
use jcos.ObjectStorage.{storage_live, object_storage_find}
use jcos.Waits.{thread_wait_matches_id, thread_wait_matches, wait_kind_valid}
use jcos.Timeouts.{
  IpcTimedWait, Timer, empty_wait, find_empty, ipc_timeout_register, ipc_timeout_unregister,
  ipc_deadline_reached, active_count,
}
use jcos.Timeouts.Table.{AreCleared, unregister-register, ipc_timeout_register_lem}
use jcos.Timeouts.Deadlines.{deadline_reached_after}

abbrev waiter : Thread
waiter = record no_thread {
  id = 5;
  state = running;
  wait_kind = ipc_receive;
  wait_result = pending;
  wait_object = 0x5000;
  wait_id = 9;
}

abbrev waiting : Kernel
waiting = record boot {
  threads = λ _. waiter;
  thread_storage = 0x7000 ∷ [];
  thread_initialized = true;
  current_thread = 0x7000;
}

abbrev late : Timer
late = record { initialized = true; ticks = 2 ^ 64 - 2 }

-- Another wait stands in the first entry.
abbrev other : IpcTimedWait
other = record empty_wait {
  thread = 0x7100;
  endpoint = 0x5100;
  wait_id = 4;
  kind = ipc_receive;
  occupied = true;
}

abbrev table : List IpcTimedWait
table = other ∷ empty_wait ∷ empty_wait ∷ []

table-AreCleared : AreCleared table
table-AreCleared zero h = absurd (ground arith)
table-AreCleared (suc zero) h = refl
table-AreCleared (suc (suc zero)) h = refl
table-AreCleared (suc (suc (suc i))) h = refl

registered : (ipc_timeout_register waiting late table 0x7000 0x5000 ipc_receive 9 10).1 ≡ true
unfolding ipc_timeout_register find_empty thread_wait_matches_id thread_wait_matches wait_kind_valid
    storage_live object_storage_find
registered = refl

unregister-register_example :
    ipc_timeout_unregister
      (ipc_timeout_register waiting late table 0x7000 0x5000 ipc_receive 9 10).0
      0x7000
      0x5000
      ipc_receive
      9
    ≡ (table, true)
unregister-register_example =
    unregister-register waiting late table 0x7000 0x5000 ipc_receive 9 10 table-AreCleared
      registered

-- The counter wraps around before the deadline.
deadline_reached_after_example :
    ipc_deadline_reached (add64 (2 ^ 64 - 2) 9) (add64 (2 ^ 64 - 2) 10) ≡ leb 10 9
deadline_reached_after_example =
    deadline_reached_after (2 ^ 64 - 2) 10 9 (omega arith) (omega arith) (omega arith)

ipc_timeout_register_example :
    (ipc_timeout_register waiting late table 0x7000 0x5000 ipc_receive 9 10 ≡ (table, false))
    ⊎ (((ipc_timeout_register waiting late table 0x7000 0x5000 ipc_receive 9 10).1 ≡ true)
        × (length (ipc_timeout_register waiting late table 0x7000 0x5000 ipc_receive 9 10).0 ≡ 3)
        × (active_count (ipc_timeout_register waiting late table 0x7000 0x5000 ipc_receive 9 10).0
            ≡ active_count table + 1))
ipc_timeout_register_example =
    ipc_timeout_register_lem waiting late table 0x7000 0x5000 ipc_receive 9 10
