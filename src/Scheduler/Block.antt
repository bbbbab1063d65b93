-- ===== src/Scheduler/Block.antt =====
-- `scheduler_block_from_interrupt` of kernel/scheduler.c: the current thread leaves the run queue.
use jcos.Prelude.{
  ℕ, zero, suc, ◌-◌, ◌≡◌, ◌≢◌, refl, ◌∙◌, ap, ◌⊎◌, inl, inr, true, false, not, ◌||◌, Option, none,
  some, List, [], ◌∷◌, arith, ltb, nonzero, Bool-cases, if_both, add64,
}
use jcos.Kernel.{running, ready, blocked}
use jcos.System.{System, thread_at, store_thread}
use jcos.Activation.{thread_activate}
use jcos.Scheduler.{
  eligible, find_next, scheduler_find_next_interrupt_thread, scheduler_interrupt_frame_valid,
  scheduler_unlink, unlink_after,
}
use jcos.Scheduler.Traps.{
  store_rax, save_context, runs_queued, park, block_to, scheduler_block_from_interrupt,
}
use jcos.Scheduler.Links.{member, Links-other}
use jcos.Scheduler.Queue.{IsRing, HasShape}
use jcos.Scheduler.Unlink.{without, scheduler_unlink_lem}

-- The fields of the queue and of each thread that the ring is made of.
pub record SameQueue (s s' : System) : Type 0 where
  pub head : s'.scheduler.run_head ≡ s.scheduler.run_head
  pub tail : s'.scheduler.run_tail ≡ s.scheduler.run_tail
  pub count : s'.scheduler.run_count ≡ s.scheduler.run_count
  pub next : (a : ℕ) → (thread_at s' a).run_next ≡ (thread_at s a).run_next
  pub queued : (a : ℕ) → (thread_at s' a).on_run_queue ≡ (thread_at s a).on_run_queue

same_shape :
    (s s' : System) (xs : List ℕ)
    → SameQueue s s'
    → HasShape s.scheduler s.kernel.threads xs
    → HasShape s'.scheduler s'.kernel.threads xs
same_shape s s' [] q h = ground (arith, q.head, q.tail, q.count)
same_shape s s' (x ∷ ys) q h = (
  q.head ∙ h.0,
  q.tail ∙ h.1,
  q.count ∙ h.2,
  Links-other s.kernel.threads s'.kernel.threads x ys x (λ a m. q.next a) h.3,
)

pub SameQueue-IsRing : (s s' : System) (xs : List ℕ) → SameQueue s s' → IsRing s xs → IsRing s' xs
SameQueue-IsRing s s' xs q r = record {
  shape = same_shape s s' xs q r.shape;
  listed = λ a. q.queued a ∙ r.listed a;
  loose = λ a h. q.next a ∙ r.loose a h;
  once = r.once;
  not_null = r.not_null;
  counted = r.counted;
}

pub activate-SameQueue : (s : System) (thread : ℕ) → SameQueue s (thread_activate s thread).0
unfolding thread_activate
activate-SameQueue s thread = record {
  head = ground arith;
  tail = ground arith;
  count = ground arith;
  next = λ a. ground arith;
  queued = λ a. ground arith;
}

-- A switch to another thread that succeeds.
pub activate_switches :
    (s : System) (thread : ℕ)
    → thread ≢ s.kernel.current_thread
    → (thread_activate s thread).1 ≡ true
    → ((thread_activate s thread).0.kernel.current_thread ≡ thread)
      × ((thread_at (thread_activate s thread).0 thread).state ≡ running)
      × ((thread_at (thread_activate s thread).0 s.kernel.current_thread).state ≡ ready)
unfolding thread_activate
activate_switches s thread n h = ground arith

pub find_next_other :
    (s : System) (current rounds c chosen : ℕ)
    → find_next s current rounds c ≡ some chosen
    → (chosen ≢ current) × (eligible s chosen ≡ true)
unfolding find_next
find_next_other s current zero c chosen e = absurd (ground arith)
find_next_other s current (suc rounds) c chosen e =
    ground (arith, find_next_other s current rounds (thread_at s c).run_next chosen)

unlink_keeps :
    (s : System) (t a : ℕ)
    → ((thread_at (scheduler_unlink s t).0 a).state ≡ (thread_at s a).state)
      × ((scheduler_unlink s t).0.kernel.current_thread ≡ s.kernel.current_thread)
unfolding scheduler_unlink unlink_after
unlink_keeps s t a = ground arith

-- The two ways in which a block ends: it returns through the same frame, with the same threads on the
-- ring and the same thread current; or it returns through the frame that the chosen thread saved, that
-- thread is current and running, and the thread that blocked is off the ring.
abbrev pub Blocks : System → (frame : ℕ) → List ℕ → System × ℕ → Type 0
Blocks s frame xs (s', f) =
    ((f ≡ frame) × IsRing s' xs × (s'.kernel.current_thread ≡ s.kernel.current_thread))
    ⊎ ((chosen : ℕ) × (scheduler_find_next_interrupt_thread s s.kernel.current_thread ≡ some chosen)
        × (f ≡ (thread_at s chosen).interrupt_rsp)
        × (s'.kernel.current_thread ≡ chosen)
        × ((thread_at s' chosen).state ≡ running)
        × ((thread_at s' s.kernel.current_thread).state ≡ blocked)
        × IsRing s' (without s.kernel.current_thread xs))

-- Parking a thread of the ring does not halt.
park_lem :
    (s : System) (thread chosen chosen_frame : ℕ) (xs : List ℕ)
    → IsRing s xs
    → member thread xs ≡ true
    → chosen ≢ thread
    → (thread_at s chosen).state ≡ running
    → s.kernel.current_thread ≡ chosen
    → (s' : System) × (park s thread chosen chosen_frame ≡ some (s', chosen_frame))
      × (s'.kernel.current_thread ≡ chosen)
      × ((thread_at s' chosen).state ≡ running)
      × ((thread_at s' thread).state ≡ blocked)
      × IsRing s' (without thread xs)
unfolding park
park_lem s thread chosen chosen_frame xs r m n st cur = elim (scheduler_unlink_lem s thread xs r) [
  | inr (out, refused) ↦ absurd (ground arith)
  | inl (_, done, ring) ↦
      let u = (scheduler_unlink s thread).0 in
      let b = store_thread u thread (record (thread_at u thread) { state = blocked }) in
      let s' = save_context b chosen 0 in
      let s'' = record s' {
        scheduler = record s'.scheduler {
          reschedule_count = add64 s'.scheduler.reschedule_count 1;
        };
      } in
      let kept = unlink_keeps s thread chosen in
      (
        s'',
        rw done refl,
        kept.1 ∙ cur,
        ground (arith, kept.0),
        ground arith,
        SameQueue-IsRing u s'' (without thread xs)
            (record {
              head = refl;
              tail = refl;
              count = refl;
              next = λ a. ground arith;
              queued = λ a. ground arith;
            })
            ring,
      )
]

prepared-SameQueue :
    (s : System) (frame thread value : ℕ)
    → SameQueue s (save_context (store_rax s frame value) thread frame)
prepared-SameQueue s frame thread value = record {
  head = refl;
  tail = refl;
  count = refl;
  next = λ a. ground arith;
  queued = λ a. ground arith;
}

undone-SameQueue :
    (s : System) (frame thread : ℕ) → SameQueue s (store_rax (save_context s thread 0) frame 0)
undone-SameQueue s frame thread = record {
  head = refl;
  tail = refl;
  count = refl;
  next = λ a. ground arith;
  queued = λ a. ground arith;
}

pub SameQueue-trans : (s t u : System) → SameQueue s t → SameQueue t u → SameQueue s u
SameQueue-trans s t u p q = record {
  head = q.head ∙ p.head;
  tail = q.tail ∙ p.tail;
  count = q.count ∙ p.count;
  next = λ a. q.next a ∙ p.next a;
  queued = λ a. q.queued a ∙ p.queued a;
}

refused_activation :
    (s : System) (thread : ℕ)
    → (thread_activate s thread).1 ≡ false
    → (thread_activate s thread).0 ≡ s
unfolding thread_activate
refused_activation s thread h = ground arith

-- What a block comes to, once a thread is chosen.
block_to_lem :
    (s : System) (frame chosen : ℕ) (xs : List ℕ)
    → IsRing s xs
    → member s.kernel.current_thread xs ≡ true
    → scheduler_find_next_interrupt_thread s s.kernel.current_thread ≡ some chosen
    → chosen ≢ s.kernel.current_thread
    → (r : System × ℕ) × (block_to (store_rax s frame 0) frame s.kernel.current_thread chosen
        ≡ some r)
      × Blocks s frame xs r
unfolding block_to
block_to_lem s frame chosen xs r m e n =
    let thread = s.kernel.current_thread in
    let z = store_rax s frame 0 in
    let p = save_context (store_rax z frame 1) thread frame in
    let a = (thread_activate p chosen).0 in
    let saved = (thread_at s chosen).interrupt_rsp in
    let queue =
      SameQueue-trans s z p
        (record { head = refl; tail = refl; count = refl; next = λ a. refl; queued = λ a. refl })
        (prepared-SameQueue z frame thread 1) in
    elim (Bool-cases (thread_activate p chosen).1) [
      | inr failed ↦
          let u = store_rax (save_context a thread 0) frame 0 in
          let same = SameQueue-trans s p u queue (
            SameQueue-trans p a u (activate-SameQueue p chosen)
              (undone-SameQueue a frame thread)) in
          let cur =
            ap (λ (x : System). x.kernel.current_thread) (refused_activation p chosen failed) in
          ((u, frame), rw failed refl, inl (refl, SameQueue-IsRing s u xs same r, cur))
      | inl switched ↦
          let (cur, st, _) = activate_switches p chosen n switched in
          let ring =
            SameQueue-IsRing s a xs (SameQueue-trans s p a queue (activate-SameQueue p chosen)) r in
          let (s', park, c, run, off, left) = park_lem a thread chosen saved xs ring m n st cur in
          ((s', saved), rw switched park, inr (chosen, e, refl, c, run, off, left))
    ]

-- The trap returns, in one of the two ways.
abbrev pub BlockReturns : System → (frame : ℕ) → List ℕ → Option (System × ℕ) → Type 0
BlockReturns s frame xs o = (r : System × ℕ) × (o ≡ some r) × Blocks s frame xs r

chosen_other :
    (s : System) (current chosen : ℕ)
    → scheduler_find_next_interrupt_thread s current ≡ some chosen
    → chosen ≢ current
unfolding scheduler_find_next_interrupt_thread
chosen_other s current chosen e =
    let next = (thread_at s current).run_next in
    let rounds = s.scheduler.run_count - 1 in
    let found : find_next s current rounds next ≡ some chosen = ground arith in
    (find_next_other s current rounds next chosen found).0

block_refused :
    (s : System) (frame : ℕ) (xs : List ℕ)
    → IsRing s xs
    → BlockReturns s frame xs (some (store_rax s frame 0, frame))
block_refused s frame xs r =
    let refused = store_rax s frame 0 in
    let same : SameQueue s refused = record {
      head = refl;
      tail = refl;
      count = refl;
      next = λ a. refl;
      queued = λ a. refl;
    } in
    ((refused, frame), refl, inl (refl, SameQueue-IsRing s refused xs same r, refl))

block_choice :
    (s : System) (frame : ℕ) (xs : List ℕ)
    → IsRing s xs
    → member s.kernel.current_thread xs ≡ true
    → (o : Option ℕ) → scheduler_find_next_interrupt_thread s s.kernel.current_thread ≡ o
    → BlockReturns s frame xs (elim o [
      | none ↦ some (store_rax s frame 0, frame)
      | some chosen ↦ block_to (store_rax s frame 0) frame s.kernel.current_thread chosen
    ])
block_choice s frame xs r m none e = block_refused s frame xs r
block_choice s frame xs r m (some chosen) e =
    block_to_lem s frame chosen xs r m e (chosen_other s s.kernel.current_thread chosen e)

-- Blocking never halts the processor: when the threads of the run queue form a ring, whether or not the
-- current thread is among them, a block trap returns. Either it returns through the same frame and
-- leaves the ring and the current thread as they were, or it switches to the thread that the round
-- robin chooses, which is running then, and the thread that blocked is off the ring.
pub block_never_halts :
    (s : System) (frame : ℕ) (xs : List ℕ)
    → IsRing s xs
    → BlockReturns s frame xs (scheduler_block_from_interrupt s frame)
unfolding scheduler_block_from_interrupt
block_never_halts s frame xs r =
    let P = BlockReturns s frame xs in
    let q = s.scheduler in
    let thread = s.kernel.current_thread in
    let refused = store_rax s frame 0 in
    let stays = block_refused s frame xs r in
    if_both P (not (nonzero frame)) (λ _. ((s, frame), refl, inl (refl, r, refl)))
      λ _.
        if_both P
          (not q.initialized
            || not (nonzero q.run_head)
            || not (nonzero q.run_tail)
            || ltb q.run_count 2)
          (λ _. stays)
          λ _.
            if_both P
              (not (runs_queued s thread) || not (scheduler_interrupt_frame_valid s thread frame))
              (λ _. stays)
              λ ok.
                block_choice s frame xs r (ground (arith, r.listed thread))
                  (scheduler_find_next_interrupt_thread s thread) refl
