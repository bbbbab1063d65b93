-- ===== src/Scheduler/Links.antt =====
-- Chains of threads linked by run_next, as kernel/scheduler.c keeps them.
use jcos.Prelude.{
  ℕ, zero, suc, ◌<◌, ◌≡◌, ◌≢◌, refl, ◌∙◌, inl, inr, Bool, true, false, not, ◌&&◌, ◌||◌, some, List,
  [], ◌∷◌, ◌++◌, arith, ◌==◌, length, Bool-cases,
}
use jcos.Kernel.{Thread}
use jcos.Scheduler.{find_previous}

abbrev pub member : ℕ → List ℕ → Bool
member a [] = false
member a (x ∷ xs) = (x == a) || member a xs

-- No thread stands twice.
abbrev pub distinct : List ℕ → Bool
distinct [] = true
distinct (x ∷ xs) = not (member x xs) && distinct xs

abbrev pub last_of : ℕ → List ℕ → ℕ
last_of x [] = x
last_of x (y ∷ ys) = last_of y ys

-- From `x`, run_next leads through `ys` to `end`.
abbrev pub Links : (ℕ → Thread) → ℕ → List ℕ → ℕ → Type 0
Links m x [] end = (m x).run_next ≡ end
Links m x (y ∷ ys) end = ((m x).run_next ≡ y) × Links m y ys end

pub member-append : (a : ℕ) (xs ys : List ℕ) → member a (xs ++ ys) ≡ (member a xs || member a ys)
member-append a [] ys = refl
member-append a (x ∷ xs) ys = ground (arith, member-append a xs ys)

pub distinct-append :
    (xs ys : List ℕ) (a : ℕ)
    → distinct (xs ++ ys) ≡ true
    → (distinct xs ≡ true) × (distinct ys ≡ true) × (member a xs ≡ true → member a ys ≡ false)
distinct-append [] ys a d = (refl, d, λ h. absurd (ground arith))
distinct-append (x ∷ xs) ys a d =
    let (u, v, w) = distinct-append xs ys a (ground arith) in
    (
      ground (arith, member-append x xs ys),
      v,
      λ h. elim (Bool-cases (x == a)) [
        | inl here ↦
            let e : x ≡ a = ground arith in rw (← e) (ground (arith, member-append x xs ys))
        | inr later ↦ w (ground arith)
      ],
    )

pub distinct-snoc :
    (xs : List ℕ) (a : ℕ)
    → distinct xs ≡ true
    → member a xs ≡ false
    → distinct (xs ++ a ∷ []) ≡ true
distinct-snoc [] a d h = refl
distinct-snoc (x ∷ xs) a d h = ground (arith, distinct-snoc xs a, member-append x xs (a ∷ []))

pub last_of-member : (x : ℕ) (ys : List ℕ) → member (last_of x ys) (x ∷ ys) ≡ true
last_of-member x [] = ground arith
last_of-member x (y ∷ ys) = ground (arith, last_of-member y ys)

pub last_of-append :
    (x : ℕ) (ys : List ℕ) (z : ℕ) (zs : List ℕ) → last_of x (ys ++ z ∷ zs) ≡ last_of z zs
last_of-append x [] z zs = refl
last_of-append x (y ∷ ys) z zs = last_of-append y ys z zs

pub Links-append :
    (m : ℕ → Thread) (x : ℕ) (ys : List ℕ) (z : ℕ) (zs : List ℕ) (end : ℕ)
    → Links m x ys z
    → Links m z zs end
    → Links m x (ys ++ z ∷ zs) end
Links-append m x [] z zs end l r = (l, r)
Links-append m x (y ∷ ys) z zs end l r = (l.0, Links-append m y ys z zs end l.1 r)

pub Links-split :
    (m : ℕ → Thread) (x : ℕ) (ys : List ℕ) (z : ℕ) (zs : List ℕ) (end : ℕ)
    → Links m x (ys ++ z ∷ zs) end
    → Links m x ys z × Links m z zs end
Links-split m x [] z zs end l = l
Links-split m x (y ∷ ys) z zs end l = let (u, v) = Links-split m y ys z zs end l.1 in ((l.0, u), v)

-- Only the links of the chain matter.
pub Links-other :
    (m m' : ℕ → Thread) (x : ℕ) (ys : List ℕ) (end : ℕ)
    → ((a : ℕ) → member a (x ∷ ys) ≡ true → (m' a).run_next ≡ (m a).run_next)
    → Links m x ys end
    → Links m' x ys end
Links-other m m' x [] end same l = same x (ground arith) ∙ l
Links-other m m' x (y ∷ ys) end same l =
    (same x (ground arith) ∙ l.0, Links-other m m' y ys end (λ a h. same a (ground arith)) l.1)

-- All links but the last stay, and the last one leads elsewhere.
pub Links-last :
    (m m' : ℕ → Thread) (x : ℕ) (ys : List ℕ) (end end' : ℕ)
    → distinct (x ∷ ys) ≡ true
    → ((a : ℕ)
        → member a (x ∷ ys) ≡ true
        → (a == last_of x ys) ≡ false
        → (m' a).run_next ≡ (m a).run_next)
    → (m' (last_of x ys)).run_next ≡ end'
    → Links m x ys end
    → Links m' x ys end'
Links-last m m' x [] end end' d same now l = now
Links-last m m' x (y ∷ ys) end end' d same now l =
    let apart : (x == last_of y ys) ≡ false = ground (arith, last_of-member y ys) in
    (
      same x (ground arith) apart ∙ l.0,
      Links-last m m' y ys end end' (ground arith) (λ a h ne. same a (ground arith) ne) now l.1,
    )

-- The loop of `scheduler_unlink` finds the last thread of a chain that leads to `thread`.
pub find_previous-Links :
    (m : ℕ → Thread) (thread rounds x : ℕ) (ys : List ℕ)
    → Links m x ys thread
    → thread ≢ 0
    → member 0 (x ∷ ys) ≡ false
    → member thread ys ≡ false
    → length ys < rounds
    → find_previous m thread rounds x ≡ some (last_of x ys)
unfolding find_previous
find_previous-Links m thread zero x ys l t n a h = absurd (omega arith)
find_previous-Links m thread (suc rounds) x [] l t n a h = ground arith
find_previous-Links m thread (suc rounds) x (y ∷ ys) l t n a h =
    let rest =
      find_previous-Links m thread rounds y ys l.1 t (ground arith) (ground arith) (omega arith) in
    let next : (m x).run_next ≡ y = l.0 in ground (arith, rest)
