-- ===== src/Waits/Tokens.antt =====
-- Wait tokens of kernel/thread.c: the issuer never repeats one, and a token is completed at most once.
use jcos.Prelude.{
  ℕ, ◌^◌, ◌<◌, ◌≡◌, ◌≢◌, sym, ◌∙◌, true, false, ◌⊎◌, inl, inr, List, [], ◌∷◌, arith, if◌then◌else◌,
  nonzero, add64, Bool-cases,
}
use jcos.Kernel.{Kernel, ThreadWaitKind, ThreadWaitResult, pending}
use jcos.Waits.{wait_terminal, result_eq, thread_wait_matches_id, thread_wait_try_complete}
use jcos.Waits.Moves.{
  WaitCall, wait_step, wait_run, kept, begun, decided, cleared, Moves, step-Moves,
}

-- Where tokens are issued below; past every word once the issuer is exhausted.
unfoldable pub tokens_below : Kernel → ℕ
tokens_below k = if nonzero k.next_wait_id then k.next_wait_id else 2 ^ 64

-- Every token in use was issued.
pub record IsIssued (k : Kernel) : Type 0 where
  pub word : k.next_wait_id < 2 ^ 64
  pub below : (t : ℕ) → (k.threads t).wait_id < tokens_below k

-- Token `w` was issued, and where thread `t` still has it, it stands completed with result `r`.
pub record IsCommitted (t w : ℕ) (r : ThreadWaitResult) (k : Kernel) : Type 0 where
  pub word : k.next_wait_id < 2 ^ 64
  pub issued : (0 < w) × (w < tokens_below k)
  pub terminal : wait_terminal r ≡ true
  pub holds : ((k.threads t).wait_id ≢ w) ⊎ ((k.threads t).wait_result ≡ r)

pending_not_terminal : (r : ThreadWaitResult) → wait_terminal r ≡ true → r ≢ pending
unfolding wait_terminal
pending_not_terminal pending h e = cc
pending_not_terminal r h e = cc

Moves-IsCommitted :
    {k k' : Kernel} (t w : ℕ) (r : ThreadWaitResult)
    → Moves k k'
    → IsCommitted t w r k
    → IsCommitted t w r k'
unfolding tokens_below
Moves-IsCommitted {k} {k'} t w r m c = record {
  word = elim m.issuer [ inl same ↦ rw same c.word | inr next ↦ omega (arith, next.1) ];
  issued = elim m.issuer [
    | inl same ↦ ground (arith, c.issued)
    | inr next ↦ ground (arith, c.issued, next.0, next.1, c.word)
  ];
  terminal = c.terminal;
  holds = elim (m.each t) [
    | kept id res ↦ elim c.holds [
      | inl other ↦ inl (λ e. other (sym id ∙ e))
      | inr set ↦ inr (res ∙ set)
    ]
    | begun id left next ↦ inl (λ e. ground (arith, c.issued))
    | decided id open_wait ↦ elim c.holds [
      | inl other ↦ inl (λ e. other (sym id ∙ e))
      | inr set ↦ absurd (pending_not_terminal r c.terminal (sym set ∙ open_wait))
    ]
    | cleared id ↦ inl (λ e. omega (arith, c.issued.0))
  ];
}

run-IsCommitted :
    (k : Kernel) (cs : List WaitCall) (t w : ℕ) (r : ThreadWaitResult)
    → IsCommitted t w r k
    → IsCommitted t w r (wait_run k cs)
unfolding wait_run
run-IsCommitted k [] t w r c = c
run-IsCommitted k (s ∷ cs) t w r c =
    run-IsCommitted (wait_step k s) cs t w r (Moves-IsCommitted t w r (step-Moves k s) c)

still_below :
    (k k' : Kernel) {a b : ℕ}
    → (k'.next_wait_id ≡ k.next_wait_id)
      ⊎ ((0 < k.next_wait_id) × (k'.next_wait_id ≡ add64 k.next_wait_id 1))
    → k.next_wait_id < 2 ^ 64
    → a < tokens_below k
    → b ≡ a
    → b < tokens_below k'
unfolding tokens_below
still_below k k' (inl same) w h e = ground arith
still_below k k' (inr next) w h e = ground arith

Moves-IsIssued : {k k' : Kernel} → Moves k k' → IsIssued k → IsIssued k'
unfolding tokens_below
Moves-IsIssued {k} {k'} m v = record {
  word = elim m.issuer [ inl same ↦ rw same v.word | inr next ↦ omega (arith, next.1) ];
  below = λ t. elim (m.each t) [
    | begun id left next ↦ ground arith
    | cleared id ↦ ground arith
    | kept id res ↦ still_below k k' m.issuer v.word (v.below t) id
    | decided id open_wait ↦ still_below k k' m.issuer v.word (v.below t) id
  ];
}

step-IsIssued : (k : Kernel) (c : WaitCall) → IsIssued k → IsIssued (wait_step k c)
step-IsIssued k c v = Moves-IsIssued (step-Moves k c) v

-- Whatever is called, every token in use lies below the issuer, so the next registration's token is
-- new.
pub run-IsIssued : (k : Kernel) (cs : List WaitCall) → IsIssued k → IsIssued (wait_run k cs)
unfolding wait_run
run-IsIssued k [] v = v
run-IsIssued k (c ∷ cs) v = run-IsIssued (wait_step k c) cs (step-IsIssued k c v)

-- What a completion that succeeded has established.
complete-IsCommitted :
    (k k' : Kernel) (t : ℕ) (kind : ThreadWaitKind) (o w : ℕ) (r : ThreadWaitResult)
    → IsIssued k
    → thread_wait_try_complete k t kind o w r ≡ (k', true)
    → IsCommitted t w r k'
unfolding thread_wait_try_complete thread_wait_matches_id tokens_below
complete-IsCommitted k k' t kind o w r v e = record {
  word = ground (arith, v.word);
  issued = ground (arith, v.word, v.below t);
  terminal = ground arith;
  holds = inr (ground arith);
}

-- A committed token is never completed again.
committed_refuses :
    (k : Kernel) (t : ℕ) (kind : ThreadWaitKind) (o w : ℕ) (r s : ThreadWaitResult)
    → IsCommitted t w r k
    → thread_wait_try_complete k t kind o w s ≡ (k, false)
unfolding thread_wait_try_complete thread_wait_matches_id
committed_refuses k t kind o w r s c = elim c.holds [
  | inl other ↦ ground arith
  | inr set ↦
      let final = pending_not_terminal r c.terminal in
      elim (Bool-cases (result_eq r pending)) [
        | inl open_wait ↦ absurd (final (ground arith))
        | inr over ↦ rw (set, over) (ground arith)
      ]
]

-- A token is completed at most once: after `thread_wait_try_complete` succeeds on it, whatever waits
-- are begun, completed, cancelled, ended and aborted and however threads are scheduled, no other
-- completion of that token of the thread succeeds, and the result stays while the token does.
pub completed_at_most_once :
    (k k' : Kernel) (t : ℕ) (kind : ThreadWaitKind) (o w : ℕ) (r : ThreadWaitResult)
    → IsIssued k
    → thread_wait_try_complete k t kind o w r ≡ (k', true)
    → (cs : List WaitCall) (kind' : ThreadWaitKind) (o' : ℕ) (s : ThreadWaitResult)
    → (thread_wait_try_complete (wait_run k' cs) t kind' o' w s ≡ (wait_run k' cs, false))
      × ((((wait_run k' cs).threads t).wait_id ≢ w)
          ⊎ (((wait_run k' cs).threads t).wait_result ≡ r))
completed_at_most_once k k' t kind o w r v e cs kind' o' s =
    let c = run-IsCommitted k' cs t w r (complete-IsCommitted k k' t kind o w r v e) in
    (committed_refuses (wait_run k' cs) t kind' o' w r s c, c.holds)
