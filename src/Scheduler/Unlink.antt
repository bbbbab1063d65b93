-- ===== src/Scheduler/Unlink.antt =====
-- `scheduler_unlink` of kernel/scheduler.c takes a thread out of the ring and closes it again.
use jcos.Prelude.{
  ℕ, suc, ◌<◌, ◌≤◌, ◌≡◌, ◌≢◌, refl, sym, ◌∙◌, ap, subst, ◌⊎◌, inl, inr, true, false, not, ◌&&◌,
  some, List, [], ◌∷◌, ◌++◌, append-nil, arith, ◌==◌, if◌then◌else◌, length, length-append,
  Bool-cases,
}
use jcos.System.{System, thread_at}
use jcos.Scheduler.{find_previous, unlink_after, detach, scheduler_unlink}
use jcos.Scheduler.Links.{
  member, distinct, last_of, Links, member-append, distinct-append, last_of-member, last_of-append,
  Links-append, Links-split, Links-last, find_previous-Links,
}
use jcos.Scheduler.Queue.{IsRing, HasShape}

-- The threads but one.
abbrev pub without : ℕ → List ℕ → List ℕ
without a [] = []
without a (x ∷ xs) = if x == a then xs else x ∷ without a xs

-- Where a thread stands in the list.
abbrev Splits : ℕ → List ℕ → List ℕ → List ℕ → Type 0
Splits a xs before after =
    (xs ≡ before ++ a ∷ after)
    × (without a xs ≡ before ++ after)
    × (member a before ≡ false)
    × (member a after ≡ false)

split_at :
    (a : ℕ) (xs : List ℕ)
    → member a xs ≡ true
    → distinct xs ≡ true
    → (before : List ℕ) × (after : List ℕ) × Splits a xs before after
split_at a [] h d = absurd (ground arith)
split_at a (x ∷ xs) h d = elim (Bool-cases (x == a)) [
  | inl here ↦
      let e : x ≡ a = ground arith in ([], xs, (rw e refl, rw here refl, refl, ground arith))
  | inr later ↦
      let (before, after, p) = split_at a xs (ground arith) (ground arith) in
      (x ∷ before, after, (rw (p.0) refl, rw (later, p.1) refl, ground (arith, p.2), p.3))
]

pub member-without :
    (a b : ℕ) (xs : List ℕ)
    → distinct xs ≡ true
    → member b (without a xs) ≡ (member b xs && not (a == b))
member-without a b [] d = refl
member-without a b (x ∷ xs) d = ground (arith, member-without a b xs)

distinct-without : (a : ℕ) (xs : List ℕ) → distinct xs ≡ true → distinct (without a xs) ≡ true
distinct-without a [] d = refl
distinct-without a (x ∷ xs) d = ground (arith, distinct-without a xs, member-without a x xs)

pub length-without : (a : ℕ) (xs : List ℕ) → length (without a xs) ≤ length xs
length-without a [] = omega arith
length-without a (x ∷ xs) = ground (arith, length-without a xs)

-- The ring without `thread`, once its shape is known.
IsRing-without :
    (s s' : System) (thread : ℕ) (xs : List ℕ)
    → IsRing s xs
    → ((a : ℕ)
        → (thread_at s' a).on_run_queue
          ≡ (if thread == a then false else (thread_at s a).on_run_queue))
    → ((a : ℕ)
        → (member a xs && not (thread == a)) ≡ false
        → (thread_at s' a).run_next ≡ (if thread == a then 0 else (thread_at s a).run_next))
    → HasShape s'.scheduler s'.kernel.threads (without thread xs)
    → IsRing s' (without thread xs)
IsRing-without s s' thread xs r queued next shape = record {
  shape = shape;
  listed = λ a. ground (arith, queued a, r.listed a, member-without thread a xs r.once);
  loose = λ a h. ground (arith, next a, r.loose a, member-without thread a xs r.once);
  once = distinct-without thread xs r.once;
  not_null = ground (arith, r.not_null, member-without thread 0 xs r.once);
  counted = omega (arith, length-without thread xs, r.counted);
}

-- The call on a queue of one thread.
unlink_only :
    (s : System) (t : ℕ)
    → IsRing s (t ∷ [])
    → scheduler_unlink s t ≡ (
      detach (record s { scheduler = record s.scheduler { run_head = 0; run_tail = 0 } }) t,
      true,
    )
unfolding scheduler_unlink find_previous
unlink_only s t r = ground (arith, r.listed t)

-- The call where the loop finds the thread before.
unlink_many :
    (s : System) (t p x : ℕ) (ys : List ℕ)
    → IsRing s (x ∷ ys)
    → member t (x ∷ ys) ≡ true
    → 0 < length ys
    → find_previous s.kernel.threads t s.scheduler.run_count s.scheduler.run_head ≡ some p
    → scheduler_unlink s t ≡ (detach (unlink_after s t p) t, true)
unfolding scheduler_unlink
unlink_many s t p x ys r m many e =
    let not_zero : t ≢ 0 = λ z. ground (arith, r.not_null, z) in
    let last = last_of-member x ys in
    let tail : s.scheduler.run_tail ≢ 0 = λ z. ground (arith, r.not_null) in
    ground (arith, r.listed t)

-- Out of the head's place.
unlink_head :
    (s : System) (t b : ℕ) (bs : List ℕ)
    → IsRing s (t ∷ b ∷ bs)
    → HasShape
        (detach (unlink_after s t (last_of b bs)) t).scheduler
        (detach (unlink_after s t (last_of b bs)) t).kernel.threads
        (b ∷ bs)
unfolding unlink_after
unlink_head s t b bs r =
    let m = s.kernel.threads in
    let p = last_of b bs in
    let m' = (detach (unlink_after s t p) t).kernel.threads in
    let inside = last_of-member b bs in
    let apart : (p == t) ≡ false = ground (arith, r.once) in
    let apart' : (t == p) ≡ false = ground (arith, apart) in
    let first : (m t).run_next ≡ b = r.shape.3.0 in
    let l : Links m' b bs b =
      Links-last m m' b bs t b (ground (arith, r.once)) (λ a h ne. ground (arith, r.once))
        (ground (arith, r.shape)) r.shape.3.1 in
    (ground (arith, r.shape), ground (arith, r.shape), ground (arith, r.shape), l)

-- Out of the tail's place.
unlink_tail :
    (s : System) (t x : ℕ) (fs : List ℕ)
    → IsRing s (x ∷ (fs ++ t ∷ []))
    → HasShape
        (detach (unlink_after s t (last_of x fs)) t).scheduler
        (detach (unlink_after s t (last_of x fs)) t).kernel.threads
        (x ∷ fs)
unfolding unlink_after
unlink_tail s t x fs r =
    let m = s.kernel.threads in
    let p = last_of x fs in
    let m' = (detach (unlink_after s t p) t).kernel.threads in
    let (d, _, _) = distinct-append (x ∷ fs) (t ∷ []) x r.once in
    let (_, _, out) = distinct-append (x ∷ fs) (t ∷ []) p r.once in
    let apart : (t == p) ≡ false = ground (arith, out (last_of-member x fs)) in
    let head : (x == t) ≡ false = ground (arith, r.once, member-append x fs (t ∷ [])) in
    let (before, after) = Links-split m x fs t [] x r.shape.3 in
    let tail : s.scheduler.run_tail ≡ t = r.shape.1 ∙ last_of-append x fs t [] in
    let l : Links m' x fs x =
      Links-last m m' x fs t x d
        (λ a h ne.
          let (_, _, w) = distinct-append (x ∷ fs) (t ∷ []) a r.once in ground (arith, w h))
        (ground (arith, r.shape.0)) before in
    (
      ground (arith, r.shape.0),
      ground (arith, tail),
      ground (arith, r.shape.2, length-append {0} fs (t ∷ []), r.counted),
      l,
    )

-- Out of any other place.
unlink_inner :
    (s : System) (t x : ℕ) (fs : List ℕ) (b : ℕ) (bs : List ℕ)
    → IsRing s (x ∷ (fs ++ t ∷ b ∷ bs))
    → HasShape
        (detach (unlink_after s t (last_of x fs)) t).scheduler
        (detach (unlink_after s t (last_of x fs)) t).kernel.threads
        (x ∷ (fs ++ b ∷ bs))
unfolding unlink_after
unlink_inner s t x fs b bs r =
    let m = s.kernel.threads in
    let p = last_of x fs in
    let q = last_of b bs in
    let m' = (detach (unlink_after s t p) t).kernel.threads in
    let (d, d', out) = distinct-append (x ∷ fs) (t ∷ b ∷ bs) p r.once in
    let out' = out (last_of-member x fs) in
    let inside = last_of-member b bs in
    let apart : (t == p) ≡ false = ground (arith, out') in
    let apart' : (p == q) ≡ false = ground (arith, out') in
    let apart'' : (t == q) ≡ false = ground (arith, d') in
    let head : (x == t) ≡ false = ground (arith, r.once, member-append x fs (t ∷ b ∷ bs)) in
    let (before, after) = Links-split m x fs t (b ∷ bs) x r.shape.3 in
    let tail : s.scheduler.run_tail ≡ q = r.shape.1 ∙ last_of-append x fs t (b ∷ bs) in
    let first : (m t).run_next ≡ b = after.0 in
    let l : Links m' x fs b =
      Links-last m m' x fs t b d
        (λ a h ne.
          let (_, _, w) = distinct-append (x ∷ fs) (t ∷ b ∷ bs) a r.once in ground (arith, w h))
        (ground (arith, tail)) before in
    let l' : Links m' b bs x =
      Links-last m m' b bs x x (ground (arith, d'))
        (λ a h ne.
          let (_, _, w) = distinct-append (x ∷ fs) (t ∷ b ∷ bs) p r.once in
          ground (arith, out', d'))
        (ground (arith, tail, r.shape.0)) after.1 in
    (
      ground (arith, r.shape.0),
      ground (arith, tail, last_of-append x fs b bs),
      ground (
        arith,
        r.shape.2,
        length-append {0} fs (t ∷ b ∷ bs),
        length-append {0} fs (b ∷ bs),
        r.counted,
      ),
      Links-append m' x fs b bs x l l',
    )

-- What an unlinking makes of the ring.
abbrev Unlinks : System → ℕ → List ℕ → Type 0
Unlinks s t xs = ((scheduler_unlink s t).1 ≡ true) × IsRing (scheduler_unlink s t).0 (without t xs)

member_ne : (a b : ℕ) (xs : List ℕ) → member a xs ≡ true → member b xs ≡ false → (a == b) ≡ false
member_ne a b xs h n = elim (Bool-cases (a == b)) [
  | inl same ↦ let e : a ≡ b = ground arith in cc (ap (λ z. member z xs) e)
  | inr other ↦ other
]

after_queued :
    (s : System) (t p a : ℕ)
    → (thread_at (detach (unlink_after s t p) t) a).on_run_queue
      ≡ (if t == a then false else (thread_at s a).on_run_queue)
unfolding unlink_after
after_queued s t p a = ground arith

after_next :
    (s : System) (t p a : ℕ) (xs : List ℕ)
    → member t xs ≡ true
    → member p xs ≡ true
    → member s.scheduler.run_tail xs ≡ true
    → (member a xs && not (t == a)) ≡ false
    → (thread_at (detach (unlink_after s t p) t) a).run_next
      ≡ (if t == a then 0 else (thread_at s a).run_next)
unfolding unlink_after
after_next s t p a xs m mp mt h = elim (Bool-cases (t == a)) [
  | inl here ↦ ground arith
  | inr there ↦
      let out : member a xs ≡ false = ground arith in
      let apart = member_ne p a xs mp out in
      let apart' = member_ne s.scheduler.run_tail a xs mt out in ground arith
]

-- The shapes above, put together with the threads' fields.
unlink_ring :
    (s : System) (t p x : ℕ) (ys : List ℕ)
    → IsRing s (x ∷ ys)
    → member t (x ∷ ys) ≡ true
    → member p (x ∷ ys) ≡ true
    → 0 < length ys
    → find_previous s.kernel.threads t s.scheduler.run_count s.scheduler.run_head ≡ some p
    → HasShape
        (detach (unlink_after s t p) t).scheduler
        (detach (unlink_after s t p) t).kernel.threads
        (without t (x ∷ ys))
    → Unlinks s t (x ∷ ys)
unlink_ring s t p x ys r m mp many e shape =
    let last = last_of-member x ys in
    let tail = ap (λ z. member z (x ∷ ys)) r.shape.1 ∙ last in
    rw (unlink_many s t p x ys r m many e) (
      refl,
      IsRing-without s (detach (unlink_after s t p) t) t (x ∷ ys) r (λ a. after_queued s t p a)
          (λ a h. after_next s t p a (x ∷ ys) m mp tail h) shape,
    )

-- The loop of `scheduler_unlink`, from the head of a ring that begins with a chain to `t`.
found :
    (s : System) (t x : ℕ) (ys fs : List ℕ)
    → IsRing s (x ∷ ys)
    → Links s.kernel.threads x fs t
    → t ≢ 0
    → member 0 (x ∷ fs) ≡ false
    → member t fs ≡ false
    → length fs ≤ length ys
    → find_previous s.kernel.threads t s.scheduler.run_count s.scheduler.run_head
      ≡ some (last_of x fs)
found s t x ys fs r l n z m h =
    rw (r.shape.0, r.shape.2)
      (find_previous-Links s.kernel.threads t (suc (length ys)) x fs l n z m (omega arith))

not_null_parts :
    (s : System) (t x : ℕ) (fs gs : List ℕ)
    → IsRing s (x ∷ (fs ++ t ∷ gs))
    → (t ≢ 0) × (member 0 (x ∷ fs) ≡ false)
not_null_parts s t x fs gs r =
    let m = member-append 0 (x ∷ fs) (t ∷ gs) in
    (λ z. ground (arith, r.not_null, m, z), ground (arith, r.not_null, m))

unlink_at :
    (s : System) (t : ℕ) (fs gs : List ℕ)
    → IsRing s (fs ++ t ∷ gs)
    → member t fs ≡ false
    → member t gs ≡ false
    → without t (fs ++ t ∷ gs) ≡ fs ++ gs
    → Unlinks s t (fs ++ t ∷ gs)
unlink_at s t [] [] r mf mg w =
    let empty = record s { scheduler = record s.scheduler { run_head = 0; run_tail = 0 } } in
    rw (unlink_only s t r) (
      refl,
      IsRing-without s (detach empty t) t (t ∷ []) r (λ a. ground arith) (λ a h. ground arith)
          (rw w (refl, refl, ground (arith, r.shape.2))),
    )
unlink_at s t [] (b ∷ bs) r mf mg w =
    let last = last_of-member b bs in
    let not_zero : t ≢ 0 = λ z. ground (arith, r.not_null, z) in
    let e = found s t t (b ∷ bs) (b ∷ bs) r r.shape.3 not_zero r.not_null mg (omega arith) in
    unlink_ring s t (last_of b bs) t (b ∷ bs) r (ground arith) (ground (arith, last)) (omega arith)
      e (rw w (unlink_head s t b bs r))
unlink_at s t (x ∷ fs) [] r mf mg w =
    let nulls = not_null_parts s t x fs [] r in
    let m = member-append t (x ∷ fs) (t ∷ []) in
    let n = length-append {0} fs (t ∷ []) in
    let last = last_of-member x fs in
    let (before, _) = Links-split s.kernel.threads x fs t [] x r.shape.3 in
    let e =
      found s t x (fs ++ t ∷ []) fs r before nulls.0 nulls.1 (ground arith) (omega (arith, n)) in
    unlink_ring s t (last_of x fs) x (fs ++ t ∷ []) r (ground (arith, m))
      (ground (arith, last, member-append (last_of x fs) fs (t ∷ []))) (omega (arith, n)) e
      (rw (w, append-nil fs) (unlink_tail s t x fs r))
unlink_at s t (x ∷ fs) (b ∷ bs) r mf mg w =
    let nulls = not_null_parts s t x fs (b ∷ bs) r in
    let m = member-append t (x ∷ fs) (t ∷ b ∷ bs) in
    let n = length-append {0} fs (t ∷ b ∷ bs) in
    let last = last_of-member x fs in
    let (before, _) = Links-split s.kernel.threads x fs t (b ∷ bs) x r.shape.3 in
    let e =
      found s t x (fs ++ t ∷ b ∷ bs) fs r before nulls.0 nulls.1 (ground arith)
        (omega (arith, n)) in
    unlink_ring s t (last_of x fs) x (fs ++ t ∷ b ∷ bs) r (ground (arith, m))
      (ground (arith, last, member-append (last_of x fs) fs (t ∷ b ∷ bs))) (omega (arith, n)) e
      (rw w (unlink_inner s t x fs b bs r))

-- Unlinking a thread takes it out of the ring: a thread of the ring is unlinked, with true, and leaves
-- the ring of the other threads in their order, its own link cleared; any other thread is refused, and
-- nothing changes.
pub scheduler_unlink_lem :
    (s : System) (t : ℕ) (xs : List ℕ)
    → IsRing s xs
    → ((member t xs ≡ true)
        × ((scheduler_unlink s t).1 ≡ true)
        × IsRing (scheduler_unlink s t).0 (without t xs))
      ⊎ ((member t xs ≡ false) × (scheduler_unlink s t ≡ (s, false)))
unfolding scheduler_unlink
scheduler_unlink_lem s t xs r = elim (Bool-cases (member t xs)) [
  | inl inside ↦
      let (fs, gs, p) = split_at t xs inside r.once in
      let at : Unlinks s t (fs ++ t ∷ gs) =
        unlink_at s t fs gs (subst (IsRing s) p.0 r) p.2 p.3 (ap (without t) (sym p.0) ∙ p.1) in
      let (done, ring) = subst (Unlinks s t) (sym p.0) at in inl (inside, done, ring)
  | inr outside ↦ inr (outside, ground (arith, r.listed t))
]
