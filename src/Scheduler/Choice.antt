-- ===== src/Scheduler/Choice.antt =====
-- Which thread kernel/scheduler.c switches to: `scheduler_find_next_interrupt_thread`.
use jcos.Prelude.{
  ℕ, zero, suc, ◌-◌, ◌≡◌, ◌≢◌, refl, true, false, Option, none, some, List, [], ◌∷◌, ◌++◌,
  append-nil, arith, ltb, if◌then◌else◌, nonzero, length, length-append,
}
use jcos.System.{System, thread_at}
use jcos.Scheduler.{eligible, find_next, scheduler_find_next_interrupt_thread}
use jcos.Scheduler.Links.{member, Links, member-append, distinct-append, Links-append, Links-split}
use jcos.Scheduler.Queue.{IsRing}

-- The first thread of a list that the scheduler can switch to.
abbrev pub first_eligible : System → List ℕ → Option ℕ
first_eligible s [] = none
first_eligible s (x ∷ xs) = if eligible s x then some x else first_eligible s xs

find_next-Links :
    (s : System) (current c : ℕ) (zs : List ℕ) (end rounds : ℕ)
    → Links s.kernel.threads c zs end
    → member current zs ≡ false
    → member 0 zs ≡ false
    → rounds ≡ length zs
    → find_next s current rounds (thread_at s c).run_next ≡ first_eligible s zs
unfolding find_next
find_next-Links s current c [] end zero l m z e = refl
find_next-Links s current c [] end (suc rounds) l m z e = absurd (omega arith)
find_next-Links s current c (x ∷ zs) end zero l m z e = absurd (omega arith)
find_next-Links s current c (x ∷ zs) end (suc rounds) l m z e =
    let rest =
      find_next-Links s current x zs end rounds l.1 (ground arith) (ground arith) (omega arith) in
    rw l.0 (ground (arith, rest))

choice_at :
    (s : System) (current : ℕ) (zs : List ℕ) (end : ℕ)
    → Links s.kernel.threads current zs end
    → current ≢ 0
    → s.scheduler.run_count ≡ suc (length zs)
    → member current zs ≡ false
    → member 0 zs ≡ false
    → scheduler_find_next_interrupt_thread s current ≡ first_eligible s zs
unfolding scheduler_find_next_interrupt_thread
choice_at s current [] end l n c m z = ground arith
choice_at s current (x ∷ zs) end l n c m z =
    let e =
      find_next-Links s current current (x ∷ zs) end (s.scheduler.run_count - 1) l m z
        (omega arith) in
    let next : nonzero (s.kernel.threads current).run_next ≡ true = ground (arith, l.0) in
    let many : ltb s.scheduler.run_count 2 ≡ false = ground arith in
    let here : nonzero current ≡ true = ground arith in rw (here, next, many) e

-- The scheduler goes round robin: on a run queue that holds the current thread, it chooses the first
-- thread that it can switch to among those after the current one, from the tail on to the head and up
-- to the current thread; it chooses none only where none of them can be switched to.
pub find_next_round_robin :
    (s : System) (current : ℕ) (fs gs : List ℕ)
    → IsRing s (fs ++ current ∷ gs)
    → scheduler_find_next_interrupt_thread s current ≡ first_eligible s (gs ++ fs)
unfolding scheduler_find_next_interrupt_thread
find_next_round_robin s current [] gs r = rw (append-nil gs) (
    choice_at s current gs current r.shape.3 (λ z. ground (arith, r.not_null, z)) r.shape.2
      (ground (arith, r.once)) (ground (arith, r.not_null)))
find_next_round_robin s current (x ∷ fs) gs r =
    let m = s.kernel.threads in
    let (before, after) = Links-split m x fs current gs x r.shape.3 in
    let (_, d, out) = distinct-append (x ∷ fs) (current ∷ gs) current r.once in
    let nulls = member-append 0 (x ∷ fs) (current ∷ gs) in
    choice_at s current (gs ++ x ∷ fs) current (Links-append m current gs x fs current after before)
      (λ z. ground (arith, r.not_null, nulls, z))
      (omega (arith, r.shape.2, length-append {0} fs (current ∷ gs), length-append {0} gs (x ∷ fs)))
      (ground (arith, d, out, member-append current gs (x ∷ fs)))
      (ground (arith, r.not_null, nulls, member-append 0 gs (x ∷ fs)))
