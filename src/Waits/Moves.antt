-- ===== src/Waits/Moves.antt =====
-- What each wait operation of kernel/thread.c may do to the tokens and results.
use jcos.Prelude.{
  ℕ, ◌<◌, ◌≡◌, refl, Bool, false, not, ◌&&◌, ◌||◌, ◌⊎◌, inl, inr, List, [], ◌∷◌, arith, ◌==◌, add64,
  Bool-cases,
}
use jcos.Kernel.{
  Kernel, Thread, ThreadState, running, blocked, ready, ThreadWaitKind, ThreadWaitResult, pending,
  cancelled,
}
use jcos.Waits.{
  put_thread, wait_terminal, wait_refused, result_eq, state_eq, settled, completable,
  thread_wait_matches, thread_wait_matches_id, thread_wait_begin, thread_wait_try_complete,
  thread_wait_cancel, thread_wait_end, thread_wait_abort,
}

-- What other code does to a thread between two calls: its state and place on the run queue, and which
-- thread is current.
pub data WaitCall : Type 0 where
  begins cancels ends aborts : (thread : ℕ) → ThreadWaitKind → (object : ℕ) → WaitCall
  completes : (thread : ℕ) → ThreadWaitKind → (object wait_id : ℕ) → ThreadWaitResult → WaitCall
  schedules : (thread : ℕ) → ThreadState → (on_run_queue : Bool) → (current : ℕ) → WaitCall

unfoldable pub wait_step : Kernel → WaitCall → Kernel
wait_step k (begins t kind object) = (thread_wait_begin k t kind object).0
wait_step k (cancels t kind object) = (thread_wait_cancel k t kind object).0
wait_step k (ends t kind object) = (thread_wait_end k t kind object).0
wait_step k (aborts t kind object) = (thread_wait_abort k t kind object).0
wait_step k (completes t kind object wait_id result) =
    (thread_wait_try_complete k t kind object wait_id result).0
wait_step k (schedules t state queued current) =
    record (put_thread k t (record (k.threads t) { state = state; on_run_queue = queued })) {
      current_thread = current;
    }

unfoldable pub wait_run : Kernel → List WaitCall → Kernel
wait_run k [] = k
wait_run k (c ∷ cs) = wait_run (wait_step k c) cs

-- What a call may do to the waits: nothing, a fresh token for one thread, a result over a pending one,
-- or none at all.
pub data Change (a b : Thread) (next next' : ℕ) : Type 0 where
  kept : b.wait_id ≡ a.wait_id → b.wait_result ≡ a.wait_result → Change a b next next'
  begun : b.wait_id ≡ next → 0 < next → next' ≡ add64 next 1 → Change a b next next'
  decided : b.wait_id ≡ a.wait_id → a.wait_result ≡ pending → Change a b next next'
  cleared : b.wait_id ≡ 0 → Change a b next next'

pub record Moves (k k' : Kernel) : Type 0 where
  pub issuer :
      (k'.next_wait_id ≡ k.next_wait_id)
      ⊎ ((0 < k.next_wait_id) × (k'.next_wait_id ≡ add64 k.next_wait_id 1))
  pub each : (t : ℕ) → Change (k.threads t) (k'.threads t) k.next_wait_id k'.next_wait_id

Moves-refl : (k : Kernel) → Moves k k
Moves-refl k = record { issuer = inl refl; each = λ t. kept refl refl }

-- A store to one thread that changes its wait in one of the ways.
put-Moves :
    (k : Kernel) (t : ℕ) (b : Thread)
    → Change (k.threads t) b k.next_wait_id k.next_wait_id
    → Moves k (put_thread k t b)
put-Moves k t b c = record {
  issuer = inl refl;
  each = λ a. elim (Bool-cases (t == a)) [
    | inl here ↦ let e : t ≡ a = ground arith in rw here (rw e at c)
    | inr there ↦ rw there (kept refl refl)
  ];
}

issuer_left :
    (k : Kernel) (t : ℕ) (kind : ThreadWaitKind) (o : ℕ)
    → wait_refused k t kind o ≡ false
    → 0 < k.next_wait_id
unfolding wait_refused
issuer_left k t kind o h = ground arith

begin-Moves :
    (k : Kernel) (t : ℕ) (kind : ThreadWaitKind) (o : ℕ) → Moves k (thread_wait_begin k t kind o).0
unfolding thread_wait_begin
begin-Moves k t kind o = elim (Bool-cases (wait_refused k t kind o)) [
  | inl refused ↦ rw refused (Moves-refl k)
  | inr started ↦ rw started (record {
    issuer = inr (issuer_left k t kind o started, refl);
    each = λ a. elim (Bool-cases (t == a)) [
      | inl here ↦ rw here (begun refl (issuer_left k t kind o started) refl)
      | inr there ↦ rw there (kept refl refl)
    ];
  })
]

complete-Moves :
    (k : Kernel) (t : ℕ) (kind : ThreadWaitKind) (o w : ℕ) (r : ThreadWaitResult)
    → Moves k (thread_wait_try_complete k t kind o w r).0
unfolding thread_wait_try_complete
complete-Moves k t kind o w r =
    elim (Bool-cases (
      not (wait_terminal r)
      || not (thread_wait_matches_id k t kind o w)
      || not (result_eq (k.threads t).wait_result pending))) [
        | inl refused ↦ rw refused (Moves-refl k)
        | inr open_wait ↦ elim (Bool-cases (completable k t)) [
          | inr wrong ↦ rw (open_wait, wrong) (Moves-refl k)
          | inl right ↦ rw (open_wait, right) (put-Moves k t _ (decided refl (ground arith)))
        ]
      ]

cancel-Moves :
    (k : Kernel) (t : ℕ) (kind : ThreadWaitKind) (o : ℕ) → Moves k (thread_wait_cancel k t kind o).0
unfolding thread_wait_cancel
cancel-Moves k t kind o = elim (Bool-cases (not (thread_wait_matches k t kind o))) [
  | inl other ↦ rw other (Moves-refl k)
  | inr same ↦ rw same (complete-Moves k t kind o (k.threads t).wait_id cancelled)
]

end-Moves :
    (k : Kernel) (t : ℕ) (kind : ThreadWaitKind) (o : ℕ) → Moves k (thread_wait_end k t kind o).0
unfolding thread_wait_end
end-Moves k t kind o =
    elim (Bool-cases (
      not (t == k.current_thread)
      || not (thread_wait_matches k t kind o)
      || not (state_eq (k.threads t).state running)
      || not (wait_terminal (k.threads t).wait_result))) [
        | inl refused ↦ rw refused (Moves-refl k)
        | inr over ↦ rw over (put-Moves k t _ (cleared refl))
      ]

-- The result that an abort writes without clearing.
settled-Change :
    (k : Kernel) (a : Thread)
    → Change a (record a { wait_result = settled a.wait_result }) k.next_wait_id k.next_wait_id
settled-Change k a = elim (Bool-cases (result_eq a.wait_result pending)) [
  | inl open_wait ↦ decided refl (ground arith)
  | inr other ↦ kept refl (ground arith)
]

abort-Moves :
    (k : Kernel) (t : ℕ) (kind : ThreadWaitKind) (o : ℕ) → Moves k (thread_wait_abort k t kind o).0
unfolding thread_wait_abort
abort-Moves k t kind o =
    elim (Bool-cases ((t == k.current_thread) || not (thread_wait_matches k t kind o))) [
      | inl refused ↦ rw refused (Moves-refl k)
      | inr parked ↦
          elim (Bool-cases (
            not (state_eq (k.threads t).state blocked)
            && not (state_eq (k.threads t).state ready))) [
              | inl other ↦ rw (parked, other) (Moves-refl k)
              | inr off ↦ elim (Bool-cases (wait_terminal (settled (k.threads t).wait_result))) [
                | inl over ↦ rw (parked, off, over) (put-Moves k t _ (cleared refl))
                | inr open_wait ↦
                    rw (parked, off, open_wait) (put-Moves k t _ (settled-Change k (k.threads t)))
              ]
            ]
    ]

pub step-Moves : (k : Kernel) (c : WaitCall) → Moves k (wait_step k c)
unfolding wait_step
step-Moves k (begins t kind o) = begin-Moves k t kind o
step-Moves k (cancels t kind o) = cancel-Moves k t kind o
step-Moves k (ends t kind o) = end-Moves k t kind o
step-Moves k (aborts t kind o) = abort-Moves k t kind o
step-Moves k (completes t kind o w r) = complete-Moves k t kind o w r
step-Moves k (schedules t state queued current) =
    let m =
      put-Moves k t (record (k.threads t) { state = state; on_run_queue = queued })
        (kept refl refl) in
    record { issuer = inl refl; each = m.each }
