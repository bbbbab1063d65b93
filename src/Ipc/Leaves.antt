-- ===== src/Ipc/Leaves.antt =====
-- What a wake-up of kernel/ipc.c leaves alone: the endpoints and every thread's wait.
use jcos.Prelude.{ℕ, ◌≡◌, refl, ◌∙◌, Bool, true, not, ◌||◌, ◌==◌, nonzero, arith, if_both}
use jcos.Kernel.{ThreadState, ThreadWaitKind, ready, blocked}
use jcos.Waits.{state_eq, completable, thread_wait_matches, thread_wait_matches_id}
use jcos.System.{System, thread_at, store_thread}
use jcos.Scheduler.{scheduler_wake, scheduler_add, scheduler_interrupt_frame_valid}
use jcos.Ipc.{ipc_make_ready}

pub record Leaves (s s' : System) : Type 0 where
  pub endpoints : s'.kernel.endpoints ≡ s.kernel.endpoints
  pub storage : s'.kernel.endpoint_storage ≡ s.kernel.endpoint_storage
  pub initialized : s'.kernel.endpoint_initialized ≡ s.kernel.endpoint_initialized
  pub threads : s'.kernel.thread_storage ≡ s.kernel.thread_storage
  pub threads_ready : s'.kernel.thread_initialized ≡ s.kernel.thread_initialized
  pub identity : (a : ℕ) → (thread_at s' a).id ≡ (thread_at s a).id
  pub kind : (a : ℕ) → (thread_at s' a).wait_kind ≡ (thread_at s a).wait_kind
  pub object : (a : ℕ) → (thread_at s' a).wait_object ≡ (thread_at s a).wait_object
  pub token : (a : ℕ) → (thread_at s' a).wait_id ≡ (thread_at s a).wait_id
  pub result : (a : ℕ) → (thread_at s' a).wait_result ≡ (thread_at s a).wait_result

Leaves-refl : (s : System) → Leaves s s
Leaves-refl s = record {
  endpoints = refl;
  storage = refl;
  initialized = refl;
  threads = refl;
  threads_ready = refl;
  identity = λ a. refl;
  kind = λ a. refl;
  object = λ a. refl;
  token = λ a. refl;
  result = λ a. refl;
}

Leaves-trans : (s t u : System) → Leaves s t → Leaves t u → Leaves s u
Leaves-trans s t u p q = record {
  endpoints = q.endpoints ∙ p.endpoints;
  storage = q.storage ∙ p.storage;
  initialized = q.initialized ∙ p.initialized;
  threads = q.threads ∙ p.threads;
  threads_ready = q.threads_ready ∙ p.threads_ready;
  identity = λ a. q.identity a ∙ p.identity a;
  kind = λ a. q.kind a ∙ p.kind a;
  object = λ a. q.object a ∙ p.object a;
  token = λ a. q.token a ∙ p.token a;
  result = λ a. q.result a ∙ p.result a;
}

-- A wait's test does not see the wake-up.
pub Leaves-matches :
    (s s' : System) (a : ℕ) (kind : ThreadWaitKind) (e id : ℕ)
    → Leaves s s'
    → thread_wait_matches_id s'.kernel a kind e id ≡ thread_wait_matches_id s.kernel a kind e id
unfolding thread_wait_matches_id thread_wait_matches
Leaves-matches s s' a kind e id l =
    rw (l.threads, l.threads_ready, l.identity a, l.kind a, l.object a, l.token a) refl

add-Leaves : (s : System) (t : ℕ) → Leaves s (scheduler_add s t).0
unfolding scheduler_add
add-Leaves s t = record {
  endpoints = ground arith;
  storage = ground arith;
  initialized = ground arith;
  threads = ground arith;
  threads_ready = ground arith;
  identity = λ a. ground arith;
  kind = λ a. ground arith;
  object = λ a. ground arith;
  token = λ a. ground arith;
  result = λ a. ground arith;
}

state-Leaves :
    (s : System) (t : ℕ) (state : ThreadState)
    → Leaves s (store_thread s t (record (thread_at s t) { state = state }))
state-Leaves s t state = record {
  endpoints = refl;
  storage = refl;
  initialized = refl;
  threads = refl;
  threads_ready = refl;
  identity = λ a. ground arith;
  kind = λ a. ground arith;
  object = λ a. ground arith;
  token = λ a. ground arith;
  result = λ a. ground arith;
}

wake-Leaves : (s : System) (t : ℕ) → Leaves s (scheduler_wake s t).0
unfolding scheduler_wake
wake-Leaves s t =
    let now = thread_at s t in
    let woken = store_thread s t (record now { state = ready }) in
    let added = scheduler_add woken t in
    let until = Leaves-trans s woken added.0 (state-Leaves s t ready) (add-Leaves woken t) in
    let back = store_thread added.0 t (record (thread_at added.0 t) { state = blocked }) in
    let P : System × Bool → Type 0 = λ o. Leaves s o.0 in
    let same = Leaves-refl s in
    if_both P
      (not s.scheduler.initialized
        || not (nonzero t)
        || not (nonzero now.id)
        || (t == s.kernel.current_thread)
        || now.on_run_queue
        || nonzero now.run_next
        || not now.interrupt_context_ready
        || not (nonzero now.interrupt_rsp)
        || not (state_eq now.state blocked))
      (λ _. same)
      λ _.
        if_both P (not (scheduler_interrupt_frame_valid s t now.interrupt_rsp)) (λ _. same)
          λ _.
            if_both P added.1 (λ _. until)
              (λ _. Leaves-trans s added.0 back until (state-Leaves added.0 t blocked))

pub ready-Leaves : (s : System) (t : ℕ) → Leaves s (ipc_make_ready s t).0
unfolding ipc_make_ready
ready-Leaves s t =
    if_both (λ (o : System × Bool). Leaves s o.0) (state_eq (thread_at s t).state blocked)
      (λ _. wake-Leaves s t) (λ _. Leaves-refl s)

-- A thread that is queued can have its wait completed.
abbrev IsCompletable : ℕ → System × Bool → Type 0
IsCompletable t o = o.1 ≡ true → completable o.0.kernel t ≡ true

add-IsCompletable :
    (s : System) (t : ℕ) → (thread_at s t).state ≡ ready → IsCompletable t (scheduler_add s t)
unfolding scheduler_add
add-IsCompletable s t r h = ground arith

wake-IsCompletable : (s : System) (t : ℕ) → IsCompletable t (scheduler_wake s t)
unfolding scheduler_wake
wake-IsCompletable s t =
    let now = thread_at s t in
    let woken = store_thread s t (record now { state = ready }) in
    let added = scheduler_add woken t in
    if_both (IsCompletable t)
      (not s.scheduler.initialized
        || not (nonzero t)
        || not (nonzero now.id)
        || (t == s.kernel.current_thread)
        || now.on_run_queue
        || nonzero now.run_next
        || not now.interrupt_context_ready
        || not (nonzero now.interrupt_rsp)
        || not (state_eq now.state blocked))
      (λ _ h. absurd (ground arith))
      λ _.
        if_both (IsCompletable t) (not (scheduler_interrupt_frame_valid s t now.interrupt_rsp))
          (λ _ h. absurd (ground arith))
          λ _.
            if_both (IsCompletable t) added.1
              (λ done _. add-IsCompletable woken t (ground arith) done)
              (λ _ h. absurd (ground arith))

pub ready-IsCompletable : (s : System) (t : ℕ) → IsCompletable t (ipc_make_ready s t)
unfolding ipc_make_ready
ready-IsCompletable s t =
    if_both (IsCompletable t) (state_eq (thread_at s t).state blocked) (λ _. wake-IsCompletable s t)
      (λ _ h. ground arith)
