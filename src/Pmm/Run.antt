-- ===== src/Pmm/Run.antt =====
-- `pmm_alloc_pages` of kernel/pmm.c: the first contiguous run of clear bits.
use jcos.Prelude.{
  ℕ, zero, suc, ◌+◌, ◌-◌, ◌*◌, ◌≤◌, ◌<◌, ◌≡◌, refl, ◌⊎◌, inl, inr, true, false, ◌&&◌, arith, ltb,
  leb, ◌==◌, if◌then◌else◌, nonzero, Bool-cases, add64,
}
use jcos.Pmm.{Pmm, bitmap_used, take_run, run_scan, pmm_alloc_pages, frame_to_phys, frame_size}
use jcos.Pmm.Count.{clear_below-le}
use jcos.Pmm.Alloc.{IsValid}
use jcos.Pmm.Spans.{IsClear, clear_run_counts, used-set_span, take_run-IsValid}

-- No run of `count` clear bits starts below `limit`.
abbrev pub NoRun : Pmm → ℕ → ℕ → Type 0
NoRun p count limit =
    (s : ℕ) → s < limit → (j : ℕ) × (j < count) × (bitmap_used p.bytes (s + j) ≡ true)

-- The first run that fits the bitmap was clear, and the call committed to it.
record CommitsRun (p : Pmm) (count : ℕ) (r : Pmm × ℕ) : Type 0 where
  pub start : ℕ
  pub fits : start + count ≤ p.bitmap_bits
  pub was_clear : IsClear p start count
  pub first : NoRun p count start
  pub commits : r ≡ (take_run p start count, (p.base_frame + start) * frame_size)

-- A call that took the first clear run of the bitmap: its bits are set now, no other bit is changed,
-- the count of free pages is less by the run's length, and the result is its first frame's address.
pub record TakesRun (p : Pmm) (count : ℕ) (r : Pmm × ℕ) : Type 0 where
  pub start : ℕ
  pub fits : start + count ≤ p.bitmap_bits
  pub was_clear : IsClear p start count
  pub first : NoRun p count start
  pub marks :
      (j : ℕ)
      → bitmap_used r.0.bytes j
        ≡ (if leb start j && ltb j (start + count) then true else bitmap_used p.bytes j)
  pub counts : r.0.free_pages + count ≡ p.free_pages
  pub returns : r.1 ≡ (p.base_frame + start) * frame_size
  pub keeps :
      r.0 ≡ record p { bytes = r.0.bytes; free_pages = r.0.free_pages; next_hint = r.0.next_hint }

-- The call changed nothing, and the bitmap has no such run.
pub record NoRoom (p : Pmm) (count : ℕ) (r : Pmm × ℕ) : Type 0 where
  pub unchanged : r ≡ (p, 0)
  pub full :
      (s : ℕ)
      → s + count ≤ p.bitmap_bits
      → (j : ℕ) × (j < count) × (bitmap_used p.bytes (s + j) ≡ true)

-- The search at `index` with a run of `len` clear bits behind it.
record IsScanning (p : Pmm) (count left index start len : ℕ) : Type 0 where
  ends : index + left ≡ p.bitmap_bits
  short : len < count
  fits : len ≤ index
  from : 0 < len → start ≡ index - len
  behind : IsClear p (index - len) len
  passed : NoRun p count (index - len)

module _ (p : Pmm) (count : ℕ) (v : IsValid p) where
  step_used :
      {left index start len : ℕ}
      → IsScanning p count (suc left) index start len
      → bitmap_used p.bytes index ≡ true
      → IsScanning p count left (add64 index 1) start 0
  step_used {left} {index} {start} {len} s e = record {
    ends = omega (arith, v.spans, s.ends);
    short = omega (arith, s.short);
    fits = omega arith;
    from = λ h. absurd (omega arith);
    behind = λ j h. absurd (omega arith);
    passed = λ t h. elim (Bool-cases (ltb t (index - len))) [
      | inl before ↦ s.passed t (ground arith)
      | inr after ↦ (
        index - t,
        ground (arith, s.short, s.fits, s.ends, v.spans),
        let at : t + (index - t) ≡ index = omega (arith, v.spans, s.ends) in rw at e,
      )
    ];
  }

  extended :
      {left index start len : ℕ}
      → IsScanning p count (suc left) index start len
      → bitmap_used p.bytes index ≡ false
      → IsClear p (index - len) (suc len)
  extended {left} {index} {start} {len} s e j h = elim (Bool-cases (j == len)) [
    | inl last ↦ let at : index - len + j ≡ index = ground (arith, s.fits) in rw at e
    | inr inside ↦ s.behind j (ground arith)
  ]

  step_clear :
      {left index start len : ℕ}
      → IsScanning p count (suc left) index start len
      → bitmap_used p.bytes index ≡ false
      → add64 len 1 < count
      → IsScanning p count left (add64 index 1) (if nonzero len then start else index) (add64 len 1)
  step_clear {left} {index} {start} {len} s e more = record {
    ends = omega (arith, v.spans, s.ends);
    short = more;
    fits = omega (arith, v.spans, s.ends, s.fits);
    from = λ h. ground (arith, s.from, v.spans, s.ends, s.fits);
    behind = λ j h.
        let at : add64 index 1 - add64 len 1 + j ≡ index - len + j =
          omega (arith, v.spans, s.ends, s.fits) in
        rw at (extended s e j (omega (arith, v.spans, s.ends, s.fits)));
    passed = λ t h. s.passed t (omega (arith, v.spans, s.ends, s.fits));
  }

  start_is :
      {left index start len : ℕ}
      → IsScanning p count (suc left) index start len
      → (if nonzero len then start else index) ≡ index - len
  start_is s = ground (arith, s.from)

  run_phys :
      (t : ℕ)
      → t < p.bitmap_bits
      → frame_to_phys (add64 p.base_frame t) ≡ (p.base_frame + t) * frame_size
  unfolding frame_to_phys
  run_phys t h = ground (arith, v.spans)

  step_found :
      {left index start len : ℕ}
      → IsScanning p count (suc left) index start len
      → bitmap_used p.bytes index ≡ false
      → ltb (add64 len 1) count ≡ false
      → CommitsRun p count (run_scan p count (suc left) index start len)
  unfolding run_scan
  step_found {left} {index} {start} {len} s e enough = record {
    start = index - len;
    fits = ground (arith, s.ends, s.fits, s.short);
    was_clear = λ j h. extended s e j (ground (arith, s.ends, v.spans, s.fits, s.short));
    first = s.passed;
    commits = rw (e, enough, start_is s, run_phys (index - len) (omega (arith, s.ends)));
  }

  run_scan_cases :
      (left index start len : ℕ)
      → IsScanning p count left index start len
      → CommitsRun p count (run_scan p count left index start len)
        ⊎ NoRoom p count (run_scan p count left index start len)
  unfolding run_scan
  run_scan_cases zero index start len s = inr (record {
    unchanged = refl;
    full = λ t h. s.passed t (omega (arith, s.short, s.ends, s.fits));
  })
  run_scan_cases (suc left) index start len s = elim (Bool-cases (bitmap_used p.bytes index)) [
    | inl used ↦ rw used (run_scan_cases left (add64 index 1) start 0 (step_used s used))
    | inr clear ↦ elim (Bool-cases (ltb (add64 len 1) count)) [
      | inl more ↦
          rw (clear, more)
            (run_scan_cases left (add64 index 1) (if nonzero len then start else index)
              (add64 len 1) (step_clear s clear (ground arith)))
      | inr enough ↦ inl (step_found s clear enough)
    ]
  ]

  start_scan : 0 < count → IsScanning p count p.bitmap_bits 0 0 0
  start_scan pos = record {
    ends = omega arith;
    short = pos;
    fits = omega arith;
    from = λ h. omega arith;
    behind = λ j h. absurd (omega arith);
    passed = λ t h. absurd (omega arith);
  }

run_enters :
    (p : Pmm) (count : ℕ)
    → IsValid p
    → 0 < count
    → count ≤ p.free_pages
    → pmm_alloc_pages p count ≡ run_scan p count p.bitmap_bits 0 0 0
unfolding pmm_alloc_pages
run_enters p count v pos h = ground (arith, v.counted, clear_below-le p.bytes p.bitmap_bits)

run_refused :
    (p : Pmm) (count : ℕ) → IsValid p → p.free_pages < count → pmm_alloc_pages p count ≡ (p, 0)
unfolding pmm_alloc_pages
run_refused p count v h = ground arith

bit_cases :
    (p : Pmm) (s n : ℕ) → ((j : ℕ) × (j < n) × (bitmap_used p.bytes (s + j) ≡ true)) ⊎ IsClear p s n
bit_cases p s zero = inr (λ j h. absurd (omega arith))
bit_cases p s (suc n) = elim (bit_cases p s n) [
  | inl (j, h, e) ↦ inl (j, omega arith, e)
  | inr c ↦ elim (Bool-cases (bitmap_used p.bytes (s + n))) [
    | inl used ↦ inl (n, omega arith, used)
    | inr clear ↦ inr (λ j h. elim (Bool-cases (j == n)) [
      | inl last ↦ let at : j ≡ n = ground arith in rw at clear
      | inr inside ↦ c j (ground arith)
    ])
  ]
]

-- The state and the address of a commitment.
commits-TakesRun :
    (p : Pmm) (count : ℕ) (r : Pmm × ℕ) → IsValid p → CommitsRun p count r → TakesRun p count r
unfolding take_run
commits-TakesRun p count r v c =
    let enough = clear_run_counts p c.start count p.bitmap_bits c.fits c.was_clear in
    let bound = clear_below-le p.bytes p.bitmap_bits in
    rw (c.commits) (record {
      start = c.start;
      fits = c.fits;
      was_clear = c.was_clear;
      first = c.first;
      marks = λ j. used-set_span p.bytes c.start count j (omega (arith, v.spans, c.fits));
      counts = omega (arith, v.counted, v.spans, enough, bound);
      returns = refl;
      keeps = refl;
    })

run_cases :
    (p : Pmm) (count : ℕ)
    → IsValid p
    → 0 < count
    → CommitsRun p count (pmm_alloc_pages p count) ⊎ NoRoom p count (pmm_alloc_pages p count)
run_cases p count v pos = elim (Bool-cases (ltb p.free_pages count)) [
  | inl few ↦ inr (record {
    unchanged = run_refused p count v (ground arith);
    full = λ s h. elim (bit_cases p s count) [
      | inl used ↦ used
      | inr c ↦ absurd (ground (arith, v.counted, clear_run_counts p s count p.bitmap_bits h c))
    ];
  })
  | inr enough ↦
      rw (run_enters p count v pos (ground arith))
        (run_scan_cases p count v p.bitmap_bits 0 0 0 (start_scan p count v pos))
]

-- Where the invariant holds and for a count of at least one, `pmm_alloc_pages` takes the first run
-- of that many clear bits in the bitmap: afterwards they are set and no other bit is changed, that
-- many pages less are free, and the result is the physical address of the run's first frame. Or it
-- changes nothing and returns zero, and then the bitmap has no such run.
pub pmm_alloc_pages_first_fit :
    (p : Pmm) (count : ℕ)
    → IsValid p
    → 0 < count
    → TakesRun p count (pmm_alloc_pages p count) ⊎ NoRoom p count (pmm_alloc_pages p count)
pmm_alloc_pages_first_fit p count v pos = elim (run_cases p count v pos) [
  | inl c ↦ inl (commits-TakesRun p count (pmm_alloc_pages p count) v c)
  | inr n ↦ inr n
]

-- A count of zero is refused.
run_of_none : (p : Pmm) → pmm_alloc_pages p 0 ≡ (p, 0)
unfolding pmm_alloc_pages
run_of_none p = ground arith

-- `pmm_alloc_pages` keeps the invariant on every branch, for every count.
pub pmm_alloc_pages-IsValid :
    (p : Pmm) (count : ℕ) → IsValid p → IsValid (pmm_alloc_pages p count).0
pmm_alloc_pages-IsValid p zero v = rw (run_of_none p) v
pmm_alloc_pages-IsValid p (suc n) v = elim (run_cases p (suc n) v (omega arith)) [
  | inl c ↦ rw (c.commits) (take_run-IsValid p c.start (suc n) v (omega arith) c.fits c.was_clear)
  | inr n' ↦ rw (n'.unchanged) v
]
