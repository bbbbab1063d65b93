-- ===== src/Scheduler/Run.antt =====
-- Histories of calls of kernel/scheduler.c, the exit and the idle context's apart, between which other code changes threads but not their
-- places on the run queue.
use jcos.Prelude.{
  ℕ, ◌+◌, ◌^◌, ◌<◌, ◌≤◌, ◌≡◌, refl, inl, inr, Bool, true, false, not, ◌&&◌, ◌||◌, Option, none,
  some, List, [], ◌∷◌, ◌++◌, arith, ltb, ◌==◌, if◌then◌else◌, nonzero, length, length-append,
  if_both,
}
use jcos.Kernel.{Thread, ThreadState, ready, blocked}
use jcos.Waits.{state_eq, thread_wait_active}
use jcos.System.{System, thread_at, store_thread}
use jcos.Activation.{thread_activate}
use jcos.Scheduler.{
  bury, scheduler_add, scheduler_remove, scheduler_wake, scheduler_unlink,
  scheduler_terminate_thread, scheduler_can_terminate_thread, scheduler_find_next_interrupt_thread,
  scheduler_interrupt_frame_valid,
}
use jcos.Scheduler.Traps.{
  store_rax, save_context, runs_queued, count_switch, switch_to,
  scheduler_switch_ready_from_interrupt, scheduler_block_from_interrupt,
}
use jcos.Scheduler.Links.{member}
use jcos.Scheduler.Queue.{IsRing, scheduler_add_lem}
use jcos.Scheduler.Unlink.{without, member-without, length-without, scheduler_unlink_lem}
use jcos.Scheduler.Block.{
  SameQueue, SameQueue-IsRing, SameQueue-trans, activate-SameQueue, block_never_halts,
}

-- `changes` is what other code stores in a thread, `switches` a yield or a preemption by the timer.
pub data SchedulerCall : Type 0 where
  adds removes wakes terminates : (thread : ℕ) → SchedulerCall
  switches : (frame : ℕ) → (timer : Bool) → SchedulerCall
  blocks : (frame : ℕ) → SchedulerCall
  changes : (thread : ℕ) → Thread → SchedulerCall

-- Other code's store: it leaves the queue's fields.
abbrev change : System → ℕ → Thread → System
change s thread t =
    let now = thread_at s thread in
    store_thread s thread (record t { run_next = now.run_next; on_run_queue = now.on_run_queue })

unfoldable pub scheduler_step : System → SchedulerCall → Option System
scheduler_step s (adds thread) = some (scheduler_add s thread).0
scheduler_step s (removes thread) = some (scheduler_remove s thread).0
scheduler_step s (wakes thread) = some (scheduler_wake s thread).0
scheduler_step s (terminates thread) = some (scheduler_terminate_thread s thread).0
scheduler_step s (switches frame timer) =
    some (scheduler_switch_ready_from_interrupt s frame timer).0
scheduler_step s (blocks frame) = elim (scheduler_block_from_interrupt s frame) [
  | none ↦ none
  | some r ↦ some r.0
]
scheduler_step s (changes thread t) = some (change s thread t)

-- `none` is a halted processor.
unfoldable pub scheduler_run : System → List SchedulerCall → Option System
unfolding scheduler_step
scheduler_run s [] = some s
scheduler_run s (c ∷ cs) = elim (scheduler_step s c) [ none ↦ none | some s' ↦ scheduler_run s' cs ]

-- The run queue is a ring of some threads, at most one more than `n`.
abbrev Ringed : ℕ → System → Type 0
Ringed n s = (xs : List ℕ) × (length xs ≤ n + 1) × IsRing s xs

remove-Ringed :
    (s : System) (t : ℕ) (xs : List ℕ) → IsRing s xs → Ringed (length xs) (scheduler_unlink s t).0
remove-Ringed s t xs r = elim (scheduler_unlink_lem s t xs r) [
  | inl (_, _, ring) ↦ (without t xs, omega (arith, length-without t xs), ring)
  | inr (_, same) ↦ rw same (xs, omega arith, r)
]

add-Ringed :
    (s : System) (t : ℕ) (xs : List ℕ)
    → IsRing s xs
    → length xs + 1 < 2 ^ 64
    → Ringed (length xs) (scheduler_add s t).0
add-Ringed s t xs r room = elim (scheduler_add_lem s t xs r room) [
  | inl same ↦ rw same (xs, omega arith, r)
  | inr (_, ring) ↦ (xs ++ t ∷ [], omega (arith, length-append {0} xs (t ∷ [])), ring)
]

state-SameQueue :
    (s : System) (t : ℕ) (state : ThreadState)
    → SameQueue s (store_thread s t (record (thread_at s t) { state = state }))
state-SameQueue s t state = record {
  head = refl;
  tail = refl;
  count = refl;
  next = λ a. ground arith;
  queued = λ a. ground arith;
}

wake-Ringed :
    (s : System) (t : ℕ) (xs : List ℕ)
    → IsRing s xs
    → length xs + 1 < 2 ^ 64
    → Ringed (length xs) (scheduler_wake s t).0
unfolding scheduler_wake
wake-Ringed s t xs r room =
    let now = thread_at s t in
    let P : System × Bool → Type 0 = λ o. Ringed (length xs) o.0 in
    let same : Ringed (length xs) s = (xs, omega arith, r) in
    let woken = store_thread s t (record now { state = ready }) in
    let ring = SameQueue-IsRing s woken xs (state-SameQueue s t ready) r in
    let added = scheduler_add woken t in
    if_both P
      (not s.scheduler.initialized
        || not (nonzero t)
        || not (nonzero now.id)
        || (t == s.kernel.current_thread)
        || now.on_run_queue
        || nonzero now.run_next
        || not now.interrupt_context_ready
        || not (nonzero now.interrupt_rsp)
        || not (state_eq now.state blocked))
      (λ _. same)
      λ _.
        if_both P (not (scheduler_interrupt_frame_valid s t now.interrupt_rsp)) (λ _. same)
          λ _.
            if_both P added.1 (λ _. add-Ringed woken t xs ring room)
              (λ failed.
                let (ys, n, kept) = add-Ringed woken t xs ring room in
                (
                  ys,
                  n,
                  SameQueue-IsRing added.0
                      (store_thread added.0 t (record (thread_at added.0 t) { state = blocked })) ys
                      (state-SameQueue added.0 t blocked) kept,
                ))

bury-Ringed :
    (s : System) (t : ℕ) (xs : List ℕ) → IsRing s xs → member t xs ≡ false → IsRing (bury s t) xs
bury-Ringed s t xs r out =
    SameQueue-IsRing s (bury s t) xs
      (record {
        head = refl;
        tail = refl;
        count = refl;
        next = λ a. ground (arith, r.loose t);
        queued = λ a. ground (arith, r.listed t);
      })
      r

-- A thread that can be terminated and is not both ready and queued is not on the ring.
not_listed :
    (s : System) (t : ℕ) (xs : List ℕ)
    → IsRing s xs
    → scheduler_can_terminate_thread s t ≡ true
    → (state_eq (thread_at s t).state ready && (thread_at s t).on_run_queue) ≡ false
    → member t xs ≡ false
unfolding scheduler_can_terminate_thread
not_listed s t xs r able loose = ground (arith, r.listed t)

terminate-Ringed :
    (s : System) (t : ℕ) (xs : List ℕ)
    → IsRing s xs
    → Ringed (length xs) (scheduler_terminate_thread s t).0
unfolding scheduler_terminate_thread
terminate-Ringed s t xs r =
    let now = thread_at s t in
    let P : System × Bool → Type 0 = λ o. Ringed (length xs) o.0 in
    let same : Ringed (length xs) s = (xs, omega arith, r) in
    let gone = scheduler_unlink s t in
    if_both P (not (scheduler_can_terminate_thread s t)) (λ _. same)
      λ able.
        if_both P (thread_wait_active s.kernel t) (λ _. same)
          λ _.
            if_both P (state_eq now.state ready && now.on_run_queue)
              (λ listed.
                if_both P (not gone.1) (λ _. remove-Ringed s t xs r)
                  (λ done. elim (scheduler_unlink_lem s t xs r) [
                    | inl (_, _, ring) ↦
                        let out : member t (without t xs) ≡ false =
                          ground (arith, member-without t t xs r.once) in
                        (
                          without t xs,
                          omega (arith, length-without t xs),
                          bury-Ringed gone.0 t (without t xs) ring out,
                        )
                    | inr (_, kept) ↦ absurd (ground arith)
                  ]))
              (λ loose. (
                xs,
                omega arith,
                bury-Ringed s t xs r (not_listed s t xs r (ground arith) (ground arith)),
              ))

save-SameQueue : (s : System) (thread frame : ℕ) → SameQueue s (save_context s thread frame)
save-SameQueue s thread frame = record {
  head = refl;
  tail = refl;
  count = refl;
  next = λ a. ground arith;
  queued = λ a. ground arith;
}

-- The queue of `s` with other counters and frames.
refl-SameQueue : (s : System) → SameQueue s s
refl-SameQueue s = record {
  head = refl;
  tail = refl;
  count = refl;
  next = λ a. refl;
  queued = λ a. refl;
}

rax-SameQueue : (s : System) (frame value : ℕ) → SameQueue s (store_rax s frame value)
rax-SameQueue s frame value = record {
  head = refl;
  tail = refl;
  count = refl;
  next = λ a. refl;
  queued = λ a. refl;
}

started-SameQueue :
    (s : System) (frame : ℕ) (timer : Bool) → SameQueue s (if timer then s else store_rax s frame 1)
started-SameQueue s frame true = refl-SameQueue s
started-SameQueue s frame false = rax-SameQueue s frame 1

ended-SameQueue :
    (s u : System) (frame : ℕ) (timer : Bool)
    → SameQueue s u
    → SameQueue s (if timer then u else store_rax u frame 0)
ended-SameQueue s u frame true q = q
ended-SameQueue s u frame false q =
    SameQueue-trans s u (store_rax u frame 0) q (rax-SameQueue u frame 0)

counted-SameQueue :
    (s u : System) (timer : Bool) → SameQueue s u → SameQueue s (count_switch u timer)
counted-SameQueue s u true q = record {
  head = q.head;
  tail = q.tail;
  count = q.count;
  next = q.next;
  queued = q.queued;
}
counted-SameQueue s u false q = record {
  head = q.head;
  tail = q.tail;
  count = q.count;
  next = q.next;
  queued = q.queued;
}

switch_to-SameQueue :
    (s : System) (frame : ℕ) (timer : Bool) (current chosen : ℕ)
    → SameQueue s (switch_to s frame timer current chosen).0
unfolding switch_to
switch_to-SameQueue s frame timer current chosen =
    let s₁ = if timer then s else store_rax s frame 1 in
    let s₂ = save_context s₁ current frame in
    let s₃ = (thread_activate s₂ chosen).0 in
    let until =
      SameQueue-trans s s₁ s₃ (started-SameQueue s frame timer) (
        SameQueue-trans s₁ s₂ s₃ (save-SameQueue s₁ current frame)
          (activate-SameQueue s₂ chosen)) in
    let chose =
      SameQueue-trans s s₃ (save_context s₃ chosen 0) until (save-SameQueue s₃ chosen 0) in
    let back =
      SameQueue-trans s s₃ (save_context s₃ current 0) until (save-SameQueue s₃ current 0) in
    if_both (λ (o : System × ℕ). SameQueue s o.0) (not (thread_activate s₂ chosen).1)
      (λ _. ended-SameQueue s (save_context s₃ current 0) frame timer back)
      (λ _. counted-SameQueue s (save_context s₃ chosen 0) timer chose)

abbrev SameAfter : System → System × ℕ → Type 0
SameAfter s o = SameQueue s o.0

switch_choice :
    (s : System) (frame : ℕ) (timer : Bool) (current : ℕ) (o : Option ℕ)
    → SameAfter s (elim o [
      | none ↦ (if timer then s else store_rax s frame 1, frame)
      | some chosen ↦ switch_to s frame timer current chosen
    ])
switch_choice s frame timer current none = started-SameQueue s frame timer
switch_choice s frame timer current (some chosen) = switch_to-SameQueue s frame timer current chosen

switch-SameQueue :
    (s : System) (frame : ℕ) (timer : Bool)
    → SameQueue s (scheduler_switch_ready_from_interrupt s frame timer).0
unfolding scheduler_switch_ready_from_interrupt
switch-SameQueue s frame timer =
    let P : System × ℕ → Type 0 = λ o. SameQueue s o.0 in
    let q = s.scheduler in
    let current = s.kernel.current_thread in
    let stays = refl-SameQueue s in
    if_both P
      (not (nonzero frame)
        || not q.initialized
        || not (nonzero q.run_head)
        || not (nonzero q.run_tail)
        || ltb q.run_count 2)
      (λ _. stays)
      λ _.
        if_both P (not (runs_queued s current)) (λ _. stays)
          λ _.
            if_both P (not (scheduler_interrupt_frame_valid s current frame)) (λ _. stays)
              λ _.
                switch_choice s frame timer current (scheduler_find_next_interrupt_thread s current)

change-SameQueue : (s : System) (t : ℕ) (b : Thread) → SameQueue s (change s t b)
change-SameQueue s t b = record {
  head = refl;
  tail = refl;
  count = refl;
  next = λ a. ground arith;
  queued = λ a. ground arith;
}

-- A step does not halt, and leaves a ring.
step-Ringed :
    (s : System) (c : SchedulerCall) (xs : List ℕ)
    → IsRing s xs
    → length xs + 1 < 2 ^ 64
    → (s' : System) × (scheduler_step s c ≡ some s') × Ringed (length xs) s'
unfolding scheduler_step scheduler_remove
step-Ringed s (adds t) xs r room = ((scheduler_add s t).0, refl, add-Ringed s t xs r room)
step-Ringed s (removes t) xs r room =
    let P : System × Bool → Type 0 = λ o. Ringed (length xs) o.0 in
    let same : Ringed (length xs) s = (xs, omega arith, r) in
    (
      (scheduler_remove s t).0,
      refl,
      if_both P (not s.scheduler.initialized || not (nonzero t) || not (thread_at s t).on_run_queue)
          (λ _. same)
          λ _. if_both P (t == s.kernel.current_thread) (λ _. same) (λ _. remove-Ringed s t xs r),
    )
step-Ringed s (wakes t) xs r room = ((scheduler_wake s t).0, refl, wake-Ringed s t xs r room)
step-Ringed s (terminates t) xs r room =
    ((scheduler_terminate_thread s t).0, refl, terminate-Ringed s t xs r)
step-Ringed s (switches frame timer) xs r room =
    let s' = (scheduler_switch_ready_from_interrupt s frame timer).0 in
    (s', refl, (xs, omega arith, SameQueue-IsRing s s' xs (switch-SameQueue s frame timer) r))
step-Ringed s (blocks frame) xs r room =
    let (result, e, outcome) = block_never_halts s frame xs r in
    (
      result.0,
      rw (e, scheduler_step) refl,
      elim outcome [
        | inl (_, ring, _) ↦ (xs, omega arith, ring)
        | inr (chosen, _, _, _, _, _, ring) ↦ (
          without s.kernel.current_thread xs,
          omega (arith, length-without s.kernel.current_thread xs),
          ring,
        )
      ],
    )
step-Ringed s (changes t b) xs r room = (
  change s t b,
  refl,
  (xs, omega arith, SameQueue-IsRing s (change s t b) xs (change-SameQueue s t b) r),
)

-- From a run queue that is a ring of threads, no history of these calls halts the processor, and each
-- leaves a ring of some threads: scheduler_add, scheduler_remove, scheduler_wake,
-- scheduler_terminate_thread, the yield and preemption switch, and the block trap, with any stores of
-- other code in the threads' other fields between them. The exit trap and the resume from the idle
-- context are not among the calls. The ring's threads and the calls together stay below 2^64.
pub run-IsRing :
    (s : System) (calls : List SchedulerCall) (xs : List ℕ)
    → IsRing s xs
    → length xs + length calls < 2 ^ 64
    → (s' : System) × (scheduler_run s calls ≡ some s') × ((ys : List ℕ) × IsRing s' ys)
unfolding scheduler_run
run-IsRing s [] xs r room = (s, refl, (xs, r))
run-IsRing s (c ∷ cs) xs r room =
    let (s', e, (ys, n, ring)) = step-Ringed s c xs r (omega arith) in
    rw (e, scheduler_run) (run-IsRing s' cs ys ring (omega arith))
