-- ===== src/Pmm/Alloc.antt =====
-- `frame_alloc` of kernel/pmm.c: what it hands out, when it fails, and the allocator's invariant.
use jcos.Prelude.{
  ℕ, zero, suc, ◌+◌, ◌-◌, ◌^◌, ◌≤◌, ◌<◌, ◌≡◌, ◌⊎◌, inl, inr, true, false, arith, ltb, if◌then◌else◌,
  nonzero, Bool-cases, add64, sub64, ap, ◌∙◌, refl, ◌==◌,
}
use jcos.Pmm.{
  Pmm, bitmap_used, frame_managed, frame_is_bitmap, wrap_index, bitmap_set, take_frame, alloc_scan,
  frame_alloc, frame_invalid,
}
use jcos.Pmm.Bits.{used-set}
use jcos.Pmm.Count.{clear_below, clear_below-le, clear_below-set, clear_below-full}

-- The bitmap is mapped, the hint stays inside it, `free_pages` counts the clear bits, and a clear
-- bit is a frame of a managed range outside the bitmap's own storage. The span of the bitmap stays
-- below the last physical frame number, 2 ^ 52.
pub record IsValid (p : Pmm) : Type 0 where
  pub ready : p.initialized ≡ true
  pub mapped : 0 < p.bitmap
  pub nonempty : 0 < p.bitmap_bits
  pub hint_in : p.next_hint < p.bitmap_bits
  pub counted : p.free_pages ≡ clear_below p.bytes p.bitmap_bits
  pub within : p.free_pages ≤ p.total_pages
  pub spans : p.base_frame + p.bitmap_bits ≤ 2 ^ 52
  pub above_zero : 0 < p.base_frame
  pub managed :
      (i : ℕ)
      → i < p.bitmap_bits
      → bitmap_used p.bytes i ≡ false
      → frame_managed p (p.base_frame + i) ≡ true
  pub outside :
      (i : ℕ)
      → i < p.bitmap_bits
      → bitmap_used p.bytes i ≡ false
      → frame_is_bitmap p (p.base_frame + i) ≡ false

-- The index that the search reaches after `k` steps from `index`.
unfoldable pub ring : ℕ → ℕ → ℕ → ℕ
ring bits index k = if ltb (index + k) bits then index + k else index + k - bits

-- Bit `i` was clear, and the call committed to it.
abbrev Commits : Pmm → ℕ → Pmm × ℕ → Type 0
Commits p i r =
    (i < p.bitmap_bits) × (bitmap_used p.bytes i ≡ false) × (r ≡ (take_frame p i, p.base_frame + i))

-- The call committed to the first clear bit of the `left` ones from `index` on.
record CommitsFirst (p : Pmm) (left index : ℕ) (r : Pmm × ℕ) : Type 0 where
  pub steps : ℕ
  pub near : steps < left
  pub passed : (k : ℕ) → k < steps → bitmap_used p.bytes (ring p.bitmap_bits index k) ≡ true
  pub commits : Commits p (ring p.bitmap_bits index steps) r

-- A call that took the first clear bit from the hint on, around the end of the bitmap: that bit is set
-- now, no other bit is changed, the count of free pages is one less, and the frame is the bit's.
pub record Takes (p : Pmm) (r : Pmm × ℕ) : Type 0 where
  pub index : ℕ
  pub inside : index < p.bitmap_bits
  pub was_clear : bitmap_used p.bytes index ≡ false
  pub steps : ℕ
  pub reached : index ≡ ring p.bitmap_bits p.next_hint steps
  pub passed : (k : ℕ) → k < steps → bitmap_used p.bytes (ring p.bitmap_bits p.next_hint k) ≡ true
  pub marks :
      (j : ℕ) → bitmap_used r.0.bytes j ≡ (if j == index then true else bitmap_used p.bytes j)
  pub counts : r.0.free_pages + 1 ≡ p.free_pages
  pub returns : r.1 ≡ p.base_frame + index
  pub keeps :
      r.0 ≡ record p { bytes = r.0.bytes; free_pages = r.0.free_pages; next_hint = r.0.next_hint }

ring-suc :
    (p : Pmm) (index k : ℕ)
    → IsValid p
    → index < p.bitmap_bits
    → k < p.bitmap_bits
    → ring p.bitmap_bits index (suc k) ≡ ring p.bitmap_bits (wrap_index p (add64 index 1)) k
unfolding ring
ring-suc p index k v h l = ground arith

wrap_index-lt :
    (p : Pmm) (index : ℕ)
    → IsValid p
    → index < p.bitmap_bits
    → wrap_index p (add64 index 1) < p.bitmap_bits
wrap_index-lt p index v h = ground arith

scan_used :
    (p : Pmm) (left index : ℕ)
    → bitmap_used p.bytes index ≡ true
    → alloc_scan p (suc left) index ≡ alloc_scan p left (wrap_index p (add64 index 1))
unfolding alloc_scan
scan_used p left index e = rw e

scan_clear :
    (p : Pmm) (left index : ℕ)
    → IsValid p
    → index < p.bitmap_bits
    → bitmap_used p.bytes index ≡ false
    → Commits p index (alloc_scan p (suc left) index)
unfolding alloc_scan
scan_clear p left index v h e = (h, e, rw e (ap (λ f. (take_frame p index, f)) (omega arith)))

used_ring :
    (p : Pmm) (left index : ℕ)
    → IsValid p
    → index < p.bitmap_bits
    → left < p.bitmap_bits
    → bitmap_used p.bytes index ≡ true
    → ((k : ℕ)
        → k < left
        → bitmap_used p.bytes (ring p.bitmap_bits (wrap_index p (add64 index 1)) k) ≡ true)
    → (k : ℕ) → k < suc left
    → bitmap_used p.bytes (ring p.bitmap_bits index k) ≡ true
used_ring p left index v h l e rest zero k_lt =
    let at_zero : ring p.bitmap_bits index 0 ≡ index = unfold ring in ground arith in rw at_zero e
used_ring p left index v h l e rest (suc k) k_lt =
    rw (ring-suc p index k v h (omega arith)) (rest k (omega arith))

ring-zero : (bits index : ℕ) → index < bits → ring bits index 0 ≡ index
unfolding ring
ring-zero bits index h = ground arith

-- One step before the steps of the rest.
step_on :
    (p : Pmm) (left index : ℕ) (r : Pmm × ℕ)
    → IsValid p
    → index < p.bitmap_bits
    → suc left ≤ p.bitmap_bits
    → bitmap_used p.bytes index ≡ true
    → CommitsFirst p left (wrap_index p (add64 index 1)) r
    → CommitsFirst p (suc left) index r
step_on p left index r v h l used c = record {
  steps = suc c.steps;
  near = omega (arith, c.near);
  passed = used_ring p c.steps index v h (omega (arith, c.near)) used c.passed;
  commits = rw (ring-suc p index c.steps v h (omega (arith, c.near))) c.commits;
}

-- The search from `index` finds the first clear bit of the next `left`, or all of them are set.
scan_cases :
    (p : Pmm) (left index : ℕ)
    → IsValid p
    → index < p.bitmap_bits
    → left ≤ p.bitmap_bits
    → CommitsFirst p left index (alloc_scan p left index)
      ⊎ ((k : ℕ) → k < left → bitmap_used p.bytes (ring p.bitmap_bits index k) ≡ true)
scan_cases p zero index v h l = inr (λ k k_lt. absurd (omega arith))
scan_cases p (suc left) index v h l = elim (Bool-cases (bitmap_used p.bytes index)) [
  | inl used ↦
      elim (scan_cases p left (wrap_index p (add64 index 1)) v (wrap_index-lt p index v h)
        (omega arith)) [
          | inl c ↦ inl (rw (scan_used p left index used) (step_on p left index _ v h l used c))
          | inr all ↦ inr (used_ring p left index v h l used all)
        ]
  | inr clear ↦ inl (record {
    steps = 0;
    near = omega arith;
    passed = λ k k_lt. absurd (omega arith);
    commits = rw (ring-zero p.bitmap_bits index h) (scan_clear p left index v h clear);
  })
]

-- Every index is on the ring.
ring_onto :
    (bits index j : ℕ) → index < bits → j < bits → (k : ℕ) × (k < bits) × (ring bits index k ≡ j)
unfolding ring
ring_onto bits index j h l =
    ((if ltb j index then j + bits - index else j - index), ground arith, ground arith)

scan_finds :
    (p : Pmm)
    → IsValid p
    → 0 < p.free_pages
    → CommitsFirst p p.bitmap_bits p.next_hint (alloc_scan p p.bitmap_bits p.next_hint)
scan_finds p v some_free = elim (scan_cases p p.bitmap_bits p.next_hint v v.hint_in (omega arith)) [
  | inl found ↦ found
  | inr all ↦ absurd (
      omega (
        arith,
        v.counted,
        clear_below-full p.bytes p.bitmap_bits λ j l.
            let (k, k_lt, e) = ring_onto p.bitmap_bits p.next_hint j v.hint_in l in
            rw e at (all k k_lt),
      ))
]

frame_alloc_enters :
    (p : Pmm)
    → IsValid p
    → 0 < p.free_pages
    → frame_alloc p ≡ alloc_scan p p.bitmap_bits p.next_hint
unfolding frame_alloc
frame_alloc_enters p v h = ground arith

-- What the call commits to while a page is free.
pub frame_alloc_commits :
    (p : Pmm)
    → IsValid p
    → 0 < p.free_pages
    → (i : ℕ) × (i < p.bitmap_bits)
      × (bitmap_used p.bytes i ≡ false)
      × (frame_alloc p ≡ (take_frame p i, p.base_frame + i))
frame_alloc_commits p v h =
    let c = scan_finds p v h in
    let (inside, clear, e) = c.commits in
    (ring p.bitmap_bits p.next_hint c.steps, inside, clear, frame_alloc_enters p v h ∙ e)

-- The state and the frame of a commitment.
commits-Takes :
    (p : Pmm) (r : Pmm × ℕ)
    → 0 < p.free_pages
    → p.free_pages ≤ 2 ^ 52
    → p.bitmap_bits ≤ 2 ^ 52
    → CommitsFirst p p.bitmap_bits p.next_hint r
    → Takes p r
unfolding take_frame
commits-Takes p r some_free small few c =
    let i = ring p.bitmap_bits p.next_hint c.steps in
    let (inside, clear, e) = c.commits in
    rw e (record {
      index = i;
      inside = inside;
      was_clear = clear;
      steps = c.steps;
      reached = refl;
      passed = c.passed;
      marks = λ j. ground (arith, used-set p.bytes i j);
      counts = omega arith;
      returns = refl;
      keeps = refl;
    })

-- From a state in which the invariant holds and a page is free, `frame_alloc` takes the first clear
-- bit from the hint on, around the end of the bitmap: afterwards that bit is set and no other is
-- changed, one page less is free, and the result is the bit's frame.
pub frame_alloc-Takes : (p : Pmm) → IsValid p → 0 < p.free_pages → Takes p (frame_alloc p)
frame_alloc-Takes p v h =
    let bound = clear_below-le p.bytes p.bitmap_bits in
    rw (frame_alloc_enters p v h) (
      commits-Takes p (alloc_scan p p.bitmap_bits p.next_hint) h
        (omega (arith, v.counted, v.spans, bound)) (omega (arith, v.spans)) (scan_finds p v h))

-- With no page free it changes nothing and returns the invalid frame.
pub frame_alloc_full : (p : Pmm) → p.free_pages ≡ 0 → frame_alloc p ≡ (p, frame_invalid)
unfolding frame_alloc
frame_alloc_full p h = ground arith

-- Marking a clear bit keeps the invariant.
pub take_frame-IsValid :
    (p : Pmm) (i : ℕ)
    → IsValid p
    → i < p.bitmap_bits
    → bitmap_used p.bytes i ≡ false
    → IsValid (take_frame p i)
unfolding take_frame frame_managed frame_is_bitmap
take_frame-IsValid p i v h e = record {
  ready = v.ready;
  mapped = v.mapped;
  nonempty = v.nonempty;
  hint_in = ground arith;
  counted = counted;
  within = ground (arith, v.counted, clear_below-set p.bytes i p.bitmap_bits);
  spans = v.spans;
  above_zero = v.above_zero;
  managed = λ j l c. v.managed j l (ground (arith, used-set p.bytes i j));
  outside = λ j l c. v.outside j l (ground (arith, used-set p.bytes i j));
}
  where
    counted : sub64 p.free_pages 1 ≡ clear_below (bitmap_set p.bytes i) p.bitmap_bits
    counted = omega (
      arith,
      v.counted,
      v.spans,
      clear_below-le p.bytes p.bitmap_bits,
      clear_below-set p.bytes i p.bitmap_bits h e,
    )

-- `frame_alloc` keeps the invariant on every branch.
pub frame_alloc-IsValid : (p : Pmm) → IsValid p → IsValid (frame_alloc p).0
frame_alloc-IsValid p v = elim (Bool-cases (nonzero p.free_pages)) [
  | inl some_free ↦
      let (i, l, c, e) = frame_alloc_commits p v (ground arith) in
      rw e (take_frame-IsValid p i v l c)
  | inr none_free ↦ rw (frame_alloc_full p (ground arith)) v
]
