-- ===== src/Ipc/Run.antt =====
-- Histories of the calls of kernel/ipc.c, between which other code changes threads but not their waits.
use jcos.Prelude.{ℕ, refl, Bool, Option, none, some, List, [], ◌∷◌, arith}
use jcos.Kernel.{Thread, IpcMessage}
use jcos.System.{System, thread_at, store_thread}
use jcos.Ipc.{and_then, ipc_try_send, ipc_try_receive}
use jcos.Ipc.Close.{ipc_endpoint_close, ipc_close_owned_endpoints, ipc_abort_thread_wait}
use jcos.Ipc.Blocking.{
  Outcome, returns, parks, ipc_receive_blocking_common, receive_resumes, ipc_send_blocking_common,
  send_resumes,
}
use jcos.Ipc.Poll.{ipc_timeout_poll}
use jcos.Ipc.Committed.{IsCommitted, Keeps, Keeps-IsCommitted}
use jcos.Ipc.Steps.{Commits, CommitsAlone, try_send-Commits, try_receive-Commits}
use jcos.Ipc.Events.{close-Commits, close_owned_endpoints-Commits, poll-Commits}
use jcos.Ipc.Receiving.{CommitsWaiting, receive_blocking-Commits, receive_resumes-Commits}
use jcos.Ipc.Sending.{send_blocking-Commits, send_resumes-Commits}
use jcos.Ipc.Aborting.{abort-Commits}

-- A blocking call runs until it returns or parks, and goes on where the parked thread runs again.
-- `changes` is what other code stores in a thread, `switches` another current thread.
pub data IpcCall : Type 0 where
  try_sends : (process handle : ℕ) → IpcMessage → IpcCall
  try_receives : (process handle : ℕ) → IpcCall
  sends : (process handle : ℕ) → IpcMessage → (timed : Bool) → (ticks : ℕ) → IpcCall
  send_goes_on : (endpoint id : ℕ) → (timed waited : Bool) → IpcCall
  receives : (process handle : ℕ) → (timed : Bool) → (ticks : ℕ) → IpcCall
  receive_goes_on : (endpoint id : ℕ) → (timed waited : Bool) → IpcCall
  polls : (now : ℕ) → IpcCall
  closes : (endpoint : ℕ) → IpcCall
  closes_owned : (owner : ℕ) → IpcCall
  aborts : (thread : ℕ) → IpcCall
  changes : (thread : ℕ) → Thread → IpcCall
  switches : (thread : ℕ) → IpcCall

-- Other code's store: it leaves the wait.
abbrev change : System → ℕ → Thread → System
change s thread t =
    let now = thread_at s thread in
    store_thread s thread (record t {
      wait_kind = now.wait_kind;
      wait_result = now.wait_result;
      wait_object = now.wait_object;
      wait_id = now.wait_id;
    })

-- The state that a call leaves.
abbrev left {ℓ} : {A : Type ℓ} → Option (System × A) → Option System
left none = none
left (some (s, a)) = some s

abbrev left_waiting {ℓ} : {A : Type ℓ} → Option (Outcome A) → Option System
left_waiting none = none
left_waiting (some (returns s a)) = some s
left_waiting (some (parks s e id)) = some s

unfoldable pub ipc_step : System → IpcCall → Option System
ipc_step s (try_sends process handle m) = left (ipc_try_send s process handle m)
ipc_step s (try_receives process handle) = left (ipc_try_receive s process handle)
ipc_step s (sends process handle m timed ticks) =
    left_waiting (ipc_send_blocking_common s process handle m timed ticks)
ipc_step s (send_goes_on endpoint id timed waited) =
    left_waiting (send_resumes s endpoint id timed waited)
ipc_step s (receives process handle timed ticks) =
    left_waiting (ipc_receive_blocking_common s process handle timed ticks)
ipc_step s (receive_goes_on endpoint id timed waited) =
    left_waiting (receive_resumes s endpoint id timed waited)
ipc_step s (polls now) = ipc_timeout_poll s now
ipc_step s (closes endpoint) = left (ipc_endpoint_close s endpoint)
ipc_step s (closes_owned owner) = left (ipc_close_owned_endpoints s owner)
ipc_step s (aborts thread) = some (ipc_abort_thread_wait s thread).0
ipc_step s (changes thread t) = some (change s thread t)
ipc_step s (switches thread) =
    some (record s { kernel = record s.kernel { current_thread = thread } })

-- `none` is a halted processor.
unfoldable pub ipc_run : System → List IpcCall → Option System
unfolding ipc_step
ipc_run s [] = some s
ipc_run s (c ∷ cs) = and_then (ipc_step s c) (λ s'. ipc_run s' cs)

left-Commits {ℓ} : {A : Type ℓ} (o : Option (System × A)) → Commits o → CommitsAlone (left o)
left-Commits none c = tt
left-Commits (some (s, a)) c = c

left_waiting-Commits {ℓ} :
    {A : Type ℓ} (o : Option (Outcome A)) → CommitsWaiting o → CommitsAlone (left_waiting o)
left_waiting-Commits none c = tt
left_waiting-Commits (some (returns s a)) c = c
left_waiting-Commits (some (parks s e id)) c = c

change-Keeps : (s : System) (t : ℕ) (x : Thread) → Keeps s.kernel (change s t x).kernel
change-Keeps s t x = record {
  sender = λ e. refl;
  stage = λ e. refl;
  kind = λ a. ground arith;
  object = λ a. ground arith;
  result = λ a. ground arith;
}

step-Commits : (s : System) (c : IpcCall) → IsCommitted s.kernel → CommitsAlone (ipc_step s c)
unfolding ipc_step
step-Commits s (try_sends process handle m) c =
    left-Commits (ipc_try_send s process handle m) (try_send-Commits s process handle m c)
step-Commits s (try_receives process handle) c =
    left-Commits (ipc_try_receive s process handle) (try_receive-Commits s process handle c)
step-Commits s (sends process handle m timed ticks) c =
    left_waiting-Commits (ipc_send_blocking_common s process handle m timed ticks)
      (send_blocking-Commits s process handle m timed ticks c)
step-Commits s (send_goes_on endpoint id timed waited) c =
    left_waiting-Commits (send_resumes s endpoint id timed waited)
      (send_resumes-Commits s endpoint id timed waited c)
step-Commits s (receives process handle timed ticks) c =
    left_waiting-Commits (ipc_receive_blocking_common s process handle timed ticks)
      (receive_blocking-Commits s process handle timed ticks c)
step-Commits s (receive_goes_on endpoint id timed waited) c =
    left_waiting-Commits (receive_resumes s endpoint id timed waited)
      (receive_resumes-Commits s endpoint id timed waited c)
step-Commits s (polls now) c = poll-Commits s now c
step-Commits s (closes endpoint) c =
    left-Commits (ipc_endpoint_close s endpoint) (close-Commits s endpoint c)
step-Commits s (closes_owned owner) c =
    left-Commits (ipc_close_owned_endpoints s owner) (close_owned_endpoints-Commits s owner c)
step-Commits s (aborts thread) c = abort-Commits s thread c
step-Commits s (changes thread t) c =
    Keeps-IsCommitted s.kernel (change s thread t).kernel (change-Keeps s thread t) c
step-Commits s (switches thread) c = record {
  waits = c.waits;
  linked = c.linked;
  staged = c.staged;
}

after_step :
    (o : Option System) (cs : List IpcCall)
    → ((s : System) → IsCommitted s.kernel → CommitsAlone (ipc_run s cs))
    → CommitsAlone o
    → CommitsAlone (and_then o (λ s'. ipc_run s' cs))
after_step none cs rest c = tt
after_step (some s) cs rest c = rest s c

-- Whatever calls are made, from a state in which each sender's message is staged just as long as its
-- wait is pending, and senders and endpoints are linked to each other, a history that does not halt
-- ends in such a state.
pub ipc_run-IsCommitted :
    (s : System) (cs : List IpcCall) → IsCommitted s.kernel → CommitsAlone (ipc_run s cs)
unfolding ipc_run
ipc_run-IsCommitted s [] c = c
ipc_run-IsCommitted s (x ∷ cs) c =
    after_step (ipc_step s x) cs (λ s' c'. ipc_run-IsCommitted s' cs c') (step-Commits s x c)
