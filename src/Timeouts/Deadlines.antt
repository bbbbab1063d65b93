-- ===== src/Timeouts/Deadlines.antt =====
-- `ipc_deadline_reached` of kernel/ipc.c on ticks of 64 bits that wrap around.
use jcos.Prelude.{ℕ, ◌^◌, ◌<◌, ◌≡◌, arith, leb, add64}
use jcos.Timeouts.{ipc_deadline_reached}

-- A deadline set `ticks` after `now` is reached `elapsed` ticks after `now` exactly when `elapsed` is
-- at least `ticks`, also where the tick counter wraps around in between: for timeouts below 2^63, as
-- ipc_timeout_register requires, and fewer than 2^63 ticks after `now`.
pub deadline_reached_after :
    (now ticks elapsed : ℕ)
    → now < 2 ^ 64
    → ticks < 2 ^ 63
    → elapsed < 2 ^ 63
    → ipc_deadline_reached (add64 now elapsed) (add64 now ticks) ≡ leb ticks elapsed
unfolding ipc_deadline_reached
deadline_reached_after now ticks elapsed n t e = ground arith
