-- ===== src/Pmm/Release.antt =====
-- `frame_free_range` of kernel/pmm.c: validate the whole span first, then clear it.
use jcos.Prelude.{
  ℕ, zero, suc, ◌+◌, ◌-◌, ◌^◌, ◌≤◌, ◌<◌, ◌≡◌, refl, ◌⊎◌, inl, inr, true, false, ◌&&◌, arith, ltb,
  leb, ◌==◌, if◌then◌else◌, Bool-cases, add64, sub64,
}
use jcos.Pmm.{
  Pmm, bitmap_used, bitmap_clear, frame_managed, frame_is_bitmap, frame_bitmap_index, span_held,
  free_range_valid, clear_span, release_span, frame_free_range, frame_free, frame_alloc, take_frame,
  bitmap_set,
}
use jcos.Pmm.Bits.{used-clear, used-set}
use jcos.Pmm.Count.{clear_below, clear_below-clear, clear_below-le}
use jcos.Pmm.Alloc.{IsValid, frame_alloc_commits}

-- What `free_range_valid` establishes of the span of `count` frames from `first`.
pub record IsHeld (p : Pmm) (first count : ℕ) : Type 0 where
  pub some_frames : 0 < count
  pub from_base : p.base_frame ≤ first
  pub to_end : first + count ≤ p.base_frame + p.bitmap_bits
  pub room : p.free_pages + count ≤ p.total_pages
  pub each_used : (j : ℕ) → j < count → bitmap_used p.bytes (first - p.base_frame + j) ≡ true
  pub each_managed : (j : ℕ) → j < count → frame_managed p (first + j) ≡ true
  pub each_outside : (j : ℕ) → j < count → frame_is_bitmap p (first + j) ≡ false

span_head :
    (p : Pmm) (first index left i : ℕ)
    → span_held p first index (suc left) i ≡ true
    → (frame_managed p (add64 first i) ≡ true)
      × (frame_is_bitmap p (add64 first i) ≡ false)
      × (bitmap_used p.bytes (add64 index i) ≡ true)
      × (span_held p first index left (i + 1) ≡ true)
unfolding span_held
span_head p first index left i h = ground arith

span_at :
    (p : Pmm) (first index left i : ℕ)
    → span_held p first index left i ≡ true
    → (j : ℕ) → i ≤ j
    → j < i + left
    → (frame_managed p (add64 first j) ≡ true)
      × (frame_is_bitmap p (add64 first j) ≡ false)
      × (bitmap_used p.bytes (add64 index j) ≡ true)
span_at p first index zero i h j lo hi = absurd (omega arith)
span_at p first index (suc left) i h j lo hi =
    let (m, b, u, rest) = span_head p first index left i h in
    elim (Bool-cases (i == j)) [
      | inl e ↦ let e' : i ≡ j = ground arith in rw (← e') (m, b, u)
      | inr n ↦ span_at p first index left (i + 1) rest j (ground arith) (omega arith)
    ]

free_range_parts :
    (p : Pmm) (first count : ℕ)
    → IsValid p
    → first < 2 ^ 64
    → count < 2 ^ 64
    → free_range_valid p first count ≡ true
    → (0 < count)
      × (p.base_frame ≤ first)
      × (first + count ≤ p.base_frame + p.bitmap_bits)
      × (p.free_pages + count ≤ p.total_pages)
      × (span_held p first (frame_bitmap_index p first) count 0 ≡ true)
unfolding free_range_valid
free_range_parts p first count v hf hc h = ground arith

-- What the code accepts is held: the checks are sound.
pub free_range_valid-IsHeld :
    (p : Pmm) (first count : ℕ)
    → IsValid p
    → first < 2 ^ 64
    → count < 2 ^ 64
    → free_range_valid p first count ≡ true
    → IsHeld p first count
free_range_valid-IsHeld p first count v hf hc h =
    let (pos, lo, hi, room, held) = free_range_parts p first count v hf hc h in
    let at = span_at p first (frame_bitmap_index p first) count 0 held in
    record {
      some_frames = pos;
      from_base = lo;
      to_end = hi;
      room = room;
      each_used = λ j l.
          let e : add64 (frame_bitmap_index p first) j ≡ first - p.base_frame + j =
            omega (arith, v.spans) in
          rw e at ((at j (omega arith) (omega arith)).2);
      each_managed = λ j l.
          let e : add64 first j ≡ first + j = omega (arith, v.spans) in
          rw e at ((at j (omega arith) (omega arith)).0);
      each_outside = λ j l.
          let e : add64 first j ≡ first + j = omega (arith, v.spans) in
          rw e at ((at j (omega arith) (omega arith)).1);
    }

-- Clearing a span clears its bits and no other.
pub used-clear_span :
    (m : ℕ → ℕ) (index n j : ℕ)
    → index + n < 2 ^ 64
    → bitmap_used (clear_span m index n) j
      ≡ (if leb index j && ltb j (index + n) then false else bitmap_used m j)
unfolding clear_span
used-clear_span m index zero j h = ground arith
used-clear_span m index (suc n) j h =
    ground (arith, used-clear m index j, used-clear_span (bitmap_clear m index) (add64 index 1) n j)

clear_below-clear_span :
    (m : ℕ → ℕ) (index n bits : ℕ)
    → bits < 2 ^ 64
    → index + n ≤ bits
    → ((j : ℕ) → j < n → bitmap_used m (index + j) ≡ true)
    → clear_below (clear_span m index n) bits ≡ clear_below m bits + n
unfolding clear_span
clear_below-clear_span m index zero bits s h u = omega arith
clear_below-clear_span m index (suc n) bits s h u = omega (
  arith,
  clear_below-clear_span (bitmap_clear m index) (add64 index 1) n bits s (omega arith) later,
  clear_below-clear m index bits (omega arith) first_used,
)
  where
    first_used : bitmap_used m index ≡ true
    first_used = let e : index + 0 ≡ index = omega arith in rw e at (u 0 (omega arith))

    later : (j : ℕ) → j < n → bitmap_used (bitmap_clear m index) (add64 index 1 + j) ≡ true
    later j l =
        let e : add64 index 1 + j ≡ index + suc j = omega arith in
        rw e (ground (arith, used-clear m index (index + suc j), u (suc j)))

-- Releasing a held span keeps the invariant.
release_span-IsValid :
    (p : Pmm) (first count : ℕ)
    → IsValid p
    → IsHeld p first count
    → IsValid (release_span p first count)
unfolding release_span frame_managed frame_is_bitmap
release_span-IsValid p first count v h = record {
  ready = v.ready;
  mapped = v.mapped;
  nonempty = v.nonempty;
  hint_in = rw index (omega arith);
  counted = rw (index, counted) (omega (arith, v.counted, clear_below-le p.bytes p.bitmap_bits));
  within = omega (arith, h.room);
  spans = v.spans;
  above_zero = v.above_zero;
  managed = λ j l c. elim (Bool-cases (bitmap_used p.bytes j)) [
    | inl used ↦
        let e : p.base_frame + j ≡ first + (j - (first - p.base_frame)) = ground (arith, bits j) in
        rw e (h.each_managed _ (ground (arith, bits j)))
    | inr clear ↦ v.managed j l clear
  ];
  outside = λ j l c. elim (Bool-cases (bitmap_used p.bytes j)) [
    | inl used ↦
        let e : p.base_frame + j ≡ first + (j - (first - p.base_frame)) = ground (arith, bits j) in
        rw e (h.each_outside _ (ground (arith, bits j)))
    | inr clear ↦ v.outside j l clear
  ];
}
  where
    index : frame_bitmap_index p first ≡ first - p.base_frame
    index = omega (arith, v.spans, h.from_base, h.to_end)

    counted :
        clear_below (clear_span p.bytes (first - p.base_frame) count) p.bitmap_bits
        ≡ clear_below p.bytes p.bitmap_bits + count
    counted =
        clear_below-clear_span p.bytes (first - p.base_frame) count p.bitmap_bits (omega arith)
          (omega arith) h.each_used

    bits :
        (j : ℕ)
        → bitmap_used (clear_span p.bytes (frame_bitmap_index p first) count) j ≡ (
            if leb (first - p.base_frame) j && ltb j (first - p.base_frame + count)
            then false
            else bitmap_used p.bytes j)
    bits j = rw index (used-clear_span p.bytes (first - p.base_frame) count j (omega arith))

-- What a call of `frame_free_range` that returned `ok` left in `q`.
pub record IsReleased (p : Pmm) (first count : ℕ) (q : Pmm) : Type 0 where
  pub held : IsHeld p first count
  pub counted : q.free_pages ≡ p.free_pages + count
  pub bits :
      (j : ℕ)
      → bitmap_used q.bytes j ≡ (
          if leb (first - p.base_frame) j && ltb j (first - p.base_frame + count)
          then false
          else bitmap_used p.bytes j)

release_span-IsReleased :
    (p : Pmm) (first count : ℕ)
    → IsValid p
    → IsHeld p first count
    → IsReleased p first count (release_span p first count)
unfolding release_span
release_span-IsReleased p first count v h = record {
  held = h;
  counted =
      omega (arith, v.counted, h.room, h.to_end, v.spans, clear_below-le p.bytes p.bitmap_bits);
  bits = λ j.
      let e : frame_bitmap_index p first ≡ first - p.base_frame =
        omega (arith, v.spans, h.from_base, h.to_end) in
      rw e
        (used-clear_span p.bytes (first - p.base_frame) count j (omega (arith, v.spans, h.to_end)));
}

free_range_cases :
    (p : Pmm) (first count : ℕ)
    → (frame_free_range p first count ≡ (p, false))
      ⊎ (frame_free_range p first count ≡ (record p { free_fault_armed = false }, false))
      ⊎ ((free_range_valid p first count ≡ true)
          × (frame_free_range p first count ≡ (release_span p first count, true)))
unfolding frame_free_range
free_range_cases p first count = ground arith

-- A release either succeeds, and then every frame of the span was allocated, managed and outside
-- the bitmap's storage, exactly the span's bits are now clear and the count grew by its length, or
-- it fails and bitmap, count and hint are untouched.
pub frame_free_range_all_or_nothing :
    (p : Pmm) (first count : ℕ)
    → IsValid p
    → first < 2 ^ 64
    → count < 2 ^ 64
    → let (q, ok) = frame_free_range p first count in
      ((ok ≡ true) × IsReleased p first count q)
      ⊎ ((ok ≡ false)
          × (q.bytes ≡ p.bytes)
          × (q.free_pages ≡ p.free_pages)
          × (q.next_hint ≡ p.next_hint))
frame_free_range_all_or_nothing p first count v hf hc = elim (free_range_cases p first count) [
  | inl e ↦ rw e (inr (refl, refl, refl, refl))
  | inr (inl e) ↦ rw e (inr (refl, refl, refl, refl))
  | inr (inr (h, e)) ↦ rw e (
      inl (
        refl,
        release_span-IsReleased p first count v (free_range_valid-IsHeld p first count v hf hc h),
      ))
]

disarm-IsValid : (p : Pmm) → IsValid p → IsValid (record p { free_fault_armed = false })
unfolding frame_managed frame_is_bitmap
disarm-IsValid p v = record {
  ready = v.ready;
  mapped = v.mapped;
  nonempty = v.nonempty;
  hint_in = v.hint_in;
  counted = v.counted;
  within = v.within;
  spans = v.spans;
  above_zero = v.above_zero;
  managed = v.managed;
  outside = v.outside;
}

-- `frame_free_range` keeps the invariant, whether it succeeds, refuses or hits the armed fault.
pub frame_free_range-IsValid :
    (p : Pmm) (first count : ℕ)
    → IsValid p
    → first < 2 ^ 64
    → count < 2 ^ 64
    → IsValid (frame_free_range p first count).0
frame_free_range-IsValid p first count v hf hc = elim (free_range_cases p first count) [
  | inl e ↦ rw e v
  | inr (inl e) ↦ rw e (disarm-IsValid p v)
  | inr (inr (h, e)) ↦
      rw e (release_span-IsValid p first count v (free_range_valid-IsHeld p first count v hf hc h))
]

taken_is_free_able :
    (p : Pmm) (i : ℕ)
    → IsValid p
    → 0 < p.free_pages
    → i < p.bitmap_bits
    → bitmap_used p.bytes i ≡ false
    → free_range_valid (take_frame p i) (p.base_frame + i) 1 ≡ true
unfolding free_range_valid span_held take_frame frame_managed frame_is_bitmap
taken_is_free_able p i v some_free l c = ground (
  arith,
  v.managed i l c,
  v.outside i l c,
  used-set p.bytes i i,
  clear_below-le p.bytes p.bitmap_bits,
)

armed-take_frame : (p : Pmm) (i : ℕ) → (take_frame p i).free_fault_armed ≡ p.free_fault_armed
unfolding take_frame
armed-take_frame p i = refl

free_taken :
    (p : Pmm) (i : ℕ)
    → p.free_fault_armed ≡ false
    → free_range_valid (take_frame p i) (p.base_frame + i) 1 ≡ true
    → frame_free (take_frame p i) (p.base_frame + i)
      ≡ (release_span (take_frame p i) (p.base_frame + i) 1, true)
unfolding frame_free
free_taken p i unarmed h = rw (h, armed-take_frame p i, unarmed)

-- Marking bit `i` and releasing its frame.
restored :
    (p : Pmm) (i : ℕ)
    → IsValid p
    → 0 < p.free_pages
    → i < p.bitmap_bits
    → bitmap_used p.bytes i ≡ false
    → let r = release_span (take_frame p i) (p.base_frame + i) 1 in
      (r.free_pages ≡ p.free_pages) × ((j : ℕ) → bitmap_used r.bytes j ≡ bitmap_used p.bytes j)
unfolding release_span take_frame
restored p i v some_free l c = (
  omega (arith, v.counted, v.spans, clear_below-le p.bytes p.bitmap_bits),
  λ j.
      rw index
        (ground (arith, used-clear_span (bitmap_set p.bytes i) i 1 j, used-set p.bytes i j, c)),
)
  where
    index : sub64 (p.base_frame + i) p.base_frame ≡ i
    index = omega (arith, v.spans)

-- Where the invariant holds, a page is free and no test fault is armed, a frame that `frame_alloc`
-- handed out can be given back: `frame_free` accepts it, every bit of the bitmap is again as it was
-- before the allocation, and so is the count.
pub frame_free-frame_alloc :
    (p : Pmm)
    → IsValid p
    → 0 < p.free_pages
    → p.free_fault_armed ≡ false
    → let (q, frame) = frame_alloc p in
      let (r, ok) = frame_free q frame in
      (ok ≡ true)
      × (r.free_pages ≡ p.free_pages)
      × ((j : ℕ) → bitmap_used r.bytes j ≡ bitmap_used p.bytes j)
frame_free-frame_alloc p v some_free unarmed =
    let (i, l, c, e) = frame_alloc_commits p v some_free in
    let accepted = taken_is_free_able p i v some_free l c in
    let (counted, bits) = restored p i v some_free l c in
    rw (e, free_taken p i unarmed accepted) (refl, counted, bits)
