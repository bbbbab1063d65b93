-- ===== src/Ipc/Effects.antt =====
-- What the parts of kernel/ipc.c's calls change of the senders' waits.
use jcos.Prelude.{
  ℕ, ◌≡◌, refl, ◌∙◌, ap, Bool, false, not, ◌||◌, some, ◌==◌, nonzero, arith, if_both,
}
use jcos.Kernel.{
  Kernel, Endpoint, IpcMessage, ThreadState, ThreadWaitKind, ThreadWaitResult, ipc_receive,
  ipc_send, pending, ready, blocked,
}
use jcos.Waits.{state_eq, result_eq, thread_wait_try_complete}
use jcos.Endpoints.{endpoint_try_send, endpoint_try_receive, put_endpoint}
use jcos.System.{System, thread_at, store_thread}
use jcos.Scheduler.{scheduler_wake, scheduler_add, scheduler_interrupt_frame_valid}
use jcos.Ipc.{ipc_make_ready, ipc_finish, endpoint_at, store_endpoint}
use jcos.Ipc.Committed.{
  IsCommitted, Keeps, Keeps-refl, Keeps-trans, receiver_result-IsCommitted,
  sender_result-IsCommitted, IsStagedBut, sender_result-IsStagedBut,
}

add-Keeps : (s : System) (t : ℕ) → Keeps s.kernel (scheduler_add s t).0.kernel
unfolding scheduler_add
add-Keeps s t = record {
  sender = λ e. ground arith;
  stage = λ e. ground arith;
  kind = λ a. ground arith;
  object = λ a. ground arith;
  result = λ a. ground arith;
}

state-Keeps :
    (s : System) (t : ℕ) (state : ThreadState)
    → Keeps s.kernel (store_thread s t (record (thread_at s t) { state = state })).kernel
state-Keeps s t state = record {
  sender = λ e. refl;
  stage = λ e. refl;
  kind = λ a. ground arith;
  object = λ a. ground arith;
  result = λ a. ground arith;
}

pub send-Keeps : (k : Kernel) (e : ℕ) (m : IpcMessage) → Keeps k (endpoint_try_send k e m).0
unfolding endpoint_try_send put_endpoint
send-Keeps k e m = record {
  sender = λ a. ground arith;
  stage = λ a. ground arith;
  kind = λ a. ground arith;
  object = λ a. ground arith;
  result = λ a. ground arith;
}

pub receive-Keeps : (k : Kernel) (e : ℕ) → Keeps k (endpoint_try_receive k e).0
unfolding endpoint_try_receive put_endpoint
receive-Keeps k e = record {
  sender = λ a. ground arith;
  stage = λ a. ground arith;
  kind = λ a. ground arith;
  object = λ a. ground arith;
  result = λ a. ground arith;
}

-- A wait that a call finishes: whose it is, and what it becomes.
pub record Finished (s : System) (t e : ℕ) (kind : ThreadWaitKind) (r : ThreadWaitResult)
    (s' : System) : Type 0 where
  pub kind_was : (thread_at s t).wait_kind ≡ kind
  pub object_was : (thread_at s t).wait_object ≡ e
  pub was_pending : (thread_at s t).wait_result ≡ pending
  pub terminal : result_eq r pending ≡ false
  pub now : s' ≡ store_thread s t (record (thread_at s t) { wait_result = r })

pub finish-Finished :
    (s : System) (t e : ℕ) (kind : ThreadWaitKind) (id : ℕ) (r : ThreadWaitResult) (s' : System)
    → ipc_finish s t e kind id r ≡ some s'
    → Finished s t e kind r s'
unfolding ipc_finish thread_wait_try_complete
finish-Finished s t e kind id r s' h = record {
  kind_was = ground arith;
  object_was = ground arith;
  was_pending = ground arith;
  terminal = ground arith;
  now = ground arith;
}

wake-Keeps : (s : System) (t : ℕ) → Keeps s.kernel (scheduler_wake s t).0.kernel
unfolding scheduler_wake
wake-Keeps s t =
    let woken = store_thread s t (record (thread_at s t) { state = ready }) in
    let added = scheduler_add woken t in
    let until =
      Keeps-trans s.kernel woken.kernel added.0.kernel (state-Keeps s t ready)
        (add-Keeps woken t) in
    let back = store_thread added.0 t (record (thread_at added.0 t) { state = blocked }) in
    let P : System × Bool → Type 0 = λ o. Keeps s.kernel o.0.kernel in
    let same = Keeps-refl s.kernel in
    let now = thread_at s t in
    if_both P
      (not s.scheduler.initialized
        || not (nonzero t)
        || not (nonzero now.id)
        || (t == s.kernel.current_thread)
        || now.on_run_queue
        || nonzero now.run_next
        || not now.interrupt_context_ready
        || not (nonzero now.interrupt_rsp)
        || not (state_eq now.state blocked))
      (λ _. same)
      λ _.
        if_both P (not (scheduler_interrupt_frame_valid s t now.interrupt_rsp)) (λ _. same)
          λ _.
            if_both P added.1 (λ _. until)
              (λ _.
                Keeps-trans s.kernel added.0.kernel back.kernel until
                  (state-Keeps added.0 t blocked))

pub ready-Keeps : (s : System) (t : ℕ) → Keeps s.kernel (ipc_make_ready s t).0.kernel
unfolding ipc_make_ready
ready-Keeps s t =
    if_both (λ (o : System × Bool). Keeps s.kernel o.0.kernel)
      (state_eq (thread_at s t).state blocked) (λ _. wake-Keeps s t) (λ _. Keeps-refl s.kernel)

-- A receiver's wait that is finished.
pub finish_receive-IsCommitted :
    (s : System) (t e id : ℕ) (r : ThreadWaitResult) (s' : System)
    → ipc_finish s t e ipc_receive id r ≡ some s'
    → IsCommitted s.kernel
    → IsCommitted s'.kernel
finish_receive-IsCommitted s t e id r s' h c =
    let f = finish-Finished s t e ipc_receive id r s' h in
    rw f.now (receiver_result-IsCommitted s.kernel t r f.kind_was c)

-- A sender's wait that is finished, once its message is dropped.
pub finish_send-IsCommitted :
    (s : System) (t e id : ℕ) (r : ThreadWaitResult) (s' : System) (f : Endpoint)
    → ipc_finish s t e ipc_send id r ≡ some s'
    → f.waiting_sender ≡ (endpoint_at s' e).waiting_sender
    → f.waiting_sender_message_ready ≡ false
    → IsCommitted s.kernel
    → IsCommitted (store_endpoint s' e f).kernel
finish_send-IsCommitted s t e id r s' f h same gone c =
    let g = finish-Finished s t e ipc_send id r s' h in
    let same' : f.waiting_sender ≡ (s.kernel.endpoints e).waiting_sender =
      same ∙ ap (λ (x : System). (endpoint_at x e).waiting_sender) g.now in
    rw g.now
      (sender_result-IsCommitted s.kernel t e r f g.kind_was g.object_was g.terminal same' gone c)

-- A sender's wait that is finished, whose message is still staged.
pub finish_send-IsStagedBut :
    (s : System) (t e id : ℕ) (r : ThreadWaitResult) (s' : System)
    → ipc_finish s t e ipc_send id r ≡ some s'
    → IsCommitted s.kernel
    → IsStagedBut s'.kernel e
finish_send-IsStagedBut s t e id r s' h c =
    let g = finish-Finished s t e ipc_send id r s' h in
    rw g.now (sender_result-IsStagedBut s.kernel t e r g.kind_was g.object_was c)
