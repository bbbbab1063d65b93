-- ===== src/Scheduler/Queue.antt =====
-- The ring of kernel/scheduler.c stands for a list of threads: `scheduler_add` puts a thread at its
-- end, and `scheduler_unlink` takes one out.
use jcos.Prelude.{
  ℕ, suc, ◌+◌, ◌^◌, ◌<◌, ◌≡◌, ◌≢◌, refl, sym, ◌⊎◌, inl, inr, Bool, true, false, not, ◌||◌, List, [],
  ◌∷◌, ◌++◌, arith, ◌==◌, nonzero, length, length-append, if_both,
}
use jcos.Kernel.{Thread}
use jcos.System.{System, Scheduler}
use jcos.Scheduler.{link_only, link_last, scheduler_add, add_refused}
use jcos.Scheduler.Links.{
  member, distinct, last_of, Links, member-append, distinct-snoc, last_of-member, last_of-append,
  Links-append, Links-last,
}

-- The queue's ends, its count and its ring of links.
abbrev pub HasShape : Scheduler → (ℕ → Thread) → List ℕ → Type 0
HasShape q m [] = (q.run_head ≡ 0) × (q.run_tail ≡ 0) × (q.run_count ≡ 0)
HasShape q m (x ∷ ys) =
    (q.run_head ≡ x)
    × (q.run_tail ≡ last_of x ys)
    × (q.run_count ≡ suc (length ys))
    × Links m x ys x

-- The run queue is a ring of the threads `xs`, in this order from its head.
pub record IsRing (s : System) (xs : List ℕ) : Type 0 where
  pub shape : HasShape s.scheduler s.kernel.threads xs
  pub listed : (a : ℕ) → (s.kernel.threads a).on_run_queue ≡ member a xs
  pub loose : (a : ℕ) → member a xs ≡ false → (s.kernel.threads a).run_next ≡ 0
  pub once : distinct xs ≡ true
  pub not_null : member 0 xs ≡ false
  pub counted : length xs < 2 ^ 64

link_only-IsRing :
    (s : System) (thread : ℕ) → IsRing s [] → thread ≢ 0 → IsRing (link_only s thread) (thread ∷ [])
unfolding link_only
link_only-IsRing s thread r n = record {
  shape = ground arith;
  listed = λ a. ground (arith, r.listed a);
  loose = λ a h. ground (arith, r.loose a);
  once = ground arith;
  not_null = ground arith;
  counted = omega arith;
}

module _ (s : System) (thread x : ℕ) (ys : List ℕ) (r : IsRing s (x ∷ ys))
    (new : member thread (x ∷ ys) ≡ false) (n : thread ≢ 0) where
  link_last_shape :
      length ys + 2 < 2 ^ 64
      → HasShape
          (link_last s thread).scheduler
          (link_last s thread).kernel.threads
          (x ∷ (ys ++ thread ∷ []))
  unfolding link_last
  link_last_shape room =
      let m = s.kernel.threads in
      let m' = (link_last s thread).kernel.threads in
      let tail : s.scheduler.run_tail ≡ last_of x ys = r.shape.1 in
      let inside = last_of-member x ys in
      let apart : (thread == last_of x ys) ≡ false = ground arith in
      let l : Links m' x ys thread =
        Links-last m m' x ys x thread r.once (λ a h ne. ground (arith, tail, new))
          (ground (arith, tail, apart)) r.shape.3 in
      (
        r.shape.0,
        sym (last_of-append x ys thread []),
        ground (arith, length-append {0} ys (thread ∷ [])),
        Links-append m' x ys thread [] x l (ground (arith, tail, apart, r.shape.0)),
      )

  link_last-IsRing : length ys + 2 < 2 ^ 64 → IsRing (link_last s thread) (x ∷ (ys ++ thread ∷ []))
  unfolding link_last
  link_last-IsRing room =
      let tail : s.scheduler.run_tail ≡ last_of x ys = r.shape.1 in
      let inside = last_of-member x ys in
      record {
        shape = link_last_shape room;
        listed = λ a. ground (arith, r.listed a, member-append a ys (thread ∷ []));
        loose = λ a h. ground (arith, r.loose a, member-append a ys (thread ∷ []));
        once = distinct-snoc (x ∷ ys) thread r.once new;
        not_null = ground (arith, r.not_null, member-append 0 ys (thread ∷ []));
        counted = omega (arith, length-append {0} ys (thread ∷ []));
      }

-- The two outcomes of `scheduler_add`.
abbrev pub Adds : System → ℕ → List ℕ → System × Bool → Type 0
Adds s thread xs result =
    (result ≡ (s, false)) ⊎ ((result.1 ≡ true) × IsRing result.0 (xs ++ thread ∷ []))

addable :
    (s : System) (thread : ℕ) (xs : List ℕ)
    → IsRing s xs
    → add_refused s thread ≡ false
    → (thread ≢ 0) × (member thread xs ≡ false)
unfolding add_refused
addable s thread xs r h = ground (arith, r.listed thread)

-- Adding a thread to the run queue puts it at the end of the ring: the call either refuses and changes
-- nothing, or returns true and leaves the ring of the same threads in their order with the new one
-- last. It holds while the count of threads does not reach 2^64.
pub scheduler_add_lem :
    (s : System) (thread : ℕ) (xs : List ℕ)
    → IsRing s xs
    → length xs + 1 < 2 ^ 64
    → Adds s thread xs (scheduler_add s thread)
unfolding scheduler_add
scheduler_add_lem s thread [] r room =
    let q = s.scheduler in
    if_both (Adds s thread []) (add_refused s thread) (λ _. inl refl)
      λ ok.
        if_both (Adds s thread []) (not (nonzero q.run_count))
          (λ _.
            if_both (Adds s thread [])
              (not q.idle_active || nonzero q.run_head || nonzero q.run_tail) (λ _. inl refl)
              (λ _. inr (refl, link_only-IsRing s thread r (addable s thread [] r ok).0)))
          (λ filled. absurd (ground arith))
scheduler_add_lem s thread (x ∷ ys) r room =
    let q = s.scheduler in
    if_both (Adds s thread (x ∷ ys)) (add_refused s thread) (λ _. inl refl)
      λ ok.
        if_both (Adds s thread (x ∷ ys)) (not (nonzero q.run_count)) (λ void. absurd (ground arith))
          (λ _.
            if_both (Adds s thread (x ∷ ys)) (not (nonzero q.run_head) || not (nonzero q.run_tail))
              (λ _. inl refl)
              (λ _.
                let (n, new) = addable s thread (x ∷ ys) r ok in
                inr (refl, link_last-IsRing s thread x ys r new n (omega arith))))
