-- ===== src/Ipc/Aborting.antt =====
-- `ipc_abort_thread_wait` of kernel/ipc.c keeps the senders' messages staged as their waits say.
use jcos.Prelude.{ℕ, ◌≡◌, Bool, true, not, ◌&&◌, ◌||◌, ◌==◌, arith, if_both}
use jcos.Kernel.{
  Kernel, ThreadWaitKind, wait_none, ipc_receive, ipc_send, process_exit, ready, blocked,
}
use jcos.Waits.{state_eq, thread_wait_active, thread_wait_abort}
use jcos.System.{System, thread_at}
use jcos.Ipc.{endpoint_at, ipc_endpoint_valid, ipc_reservation_valid}
use jcos.Ipc.Close.{abort_waiter, abort_by_kind, ipc_abort_thread_wait}
use jcos.Ipc.Committed.{IsCommitted, Keeps, Keeps-IsCommitted, IsCommitted-IsStagedBut}
use jcos.Ipc.Waiting.{Ended, ended_send-Commits, ended_receive-Commits}

-- An abort that succeeds ends the wait.
abort-Ended :
    (k : Kernel) (t e : ℕ) (kind : ThreadWaitKind)
    → (thread_wait_abort k t kind e).1 ≡ true
    → Ended k t e kind (thread_wait_abort k t kind e).0
unfolding thread_wait_abort
abort-Ended k t e kind h = record {
  kind_was = ground arith;
  object_was = ground arith;
  now = ground arith;
}

-- One that fails leaves every wait as it was.
failed-Keeps :
    (k : Kernel) (t e : ℕ) (kind : ThreadWaitKind)
    → not (thread_wait_abort k t kind e).1 ≡ true
    → Keeps k (thread_wait_abort k t kind e).0
unfolding thread_wait_abort
failed-Keeps k t e kind h = record {
  sender = λ a. ground arith;
  stage = λ a. ground arith;
  kind = λ a. ground arith;
  object = λ a. ground arith;
  result = λ a. ground arith;
}

abbrev CommitsPair : System × Bool → Type 0
CommitsPair o = IsCommitted o.0.kernel

abort_receiver-Commits :
    (s : System) (t e linked id : ℕ)
    → IsCommitted s.kernel
    → CommitsPair (abort_waiter s t e ipc_receive linked id)
unfolding abort_waiter
abort_receiver-Commits s t e linked id c =
    let (k, aborted) = thread_wait_abort s.kernel t ipc_receive e in
    if_both CommitsPair (not (linked == t)) (λ _. c)
      λ _.
        if_both CommitsPair (not aborted)
          (λ h. Keeps-IsCommitted s.kernel k (failed-Keeps s.kernel t e ipc_receive h) c)
          (λ h.
            ended_receive-Commits s t e k (abort-Ended s.kernel t e ipc_receive (ground arith)) c)

abort_sender-Commits :
    (s : System) (t e linked id : ℕ)
    → IsCommitted s.kernel
    → CommitsPair (abort_waiter s t e ipc_send linked id)
unfolding abort_waiter
abort_sender-Commits s t e linked id c =
    let (k, aborted) = thread_wait_abort s.kernel t ipc_send e in
    if_both CommitsPair (not (linked == t)) (λ _. c)
      λ _.
        if_both CommitsPair (not aborted)
          (λ h. Keeps-IsCommitted s.kernel k (failed-Keeps s.kernel t e ipc_send h) c)
          (λ h.
            ended_send-Commits s t e k (abort-Ended s.kernel t e ipc_send (ground arith))
              (IsCommitted-IsStagedBut s.kernel e c))

by_kind-Commits :
    (s : System) (t e : ℕ) (kind : ThreadWaitKind) (id : ℕ)
    → IsCommitted s.kernel
    → CommitsPair (abort_by_kind s t e kind id)
unfolding abort_by_kind
by_kind-Commits s t e ipc_receive id c =
    abort_receiver-Commits s t e (endpoint_at s e).waiting_receiver id c
by_kind-Commits s t e ipc_send id c =
    abort_sender-Commits s t e (endpoint_at s e).waiting_sender id c
by_kind-Commits s t e wait_none id c = c
by_kind-Commits s t e process_exit id c = c

pub abort-Commits :
    (s : System) (t : ℕ) → IsCommitted s.kernel → CommitsPair (ipc_abort_thread_wait s t)
unfolding ipc_abort_thread_wait
abort-Commits s t c =
    let now = thread_at s t in
    if_both CommitsPair ((t == s.kernel.current_thread) || not (thread_wait_active s.kernel t))
      (λ _. c)
      λ _.
        if_both CommitsPair (not (state_eq now.state blocked) && not (state_eq now.state ready))
          (λ _. c)
          λ _.
            if_both CommitsPair
              (not (ipc_endpoint_valid s now.wait_object)
                || not (ipc_reservation_valid s now.wait_object now.wait_kind))
              (λ _. c) (λ _. by_kind-Commits s t now.wait_object now.wait_kind now.wait_id c)
