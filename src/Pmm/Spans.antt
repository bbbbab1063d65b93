-- ===== src/Pmm/Spans.antt =====
-- Runs of clear bits in the bitmap of kernel/pmm.c, and what marking one does.
use jcos.Prelude.{
  ℕ, zero, suc, ◌+◌, ◌^◌, ◌≤◌, ◌<◌, ◌≡◌, inl, inr, true, false, ◌&&◌, arith, ltb, leb, ◌==◌,
  if◌then◌else◌, Bool-cases, add64,
}
use jcos.Pmm.{Pmm, bitmap_used, bitmap_set, set_span, take_run, frame_managed, frame_is_bitmap}
use jcos.Pmm.Bits.{used-set}
use jcos.Pmm.Count.{clear_below, clear_below-le, clear_below-set}
use jcos.Pmm.Alloc.{IsValid}

-- The bits of `[start, start + count)` are clear.
abbrev pub IsClear : Pmm → ℕ → ℕ → Type 0
IsClear p start count = (j : ℕ) → j < count → bitmap_used p.bytes (start + j) ≡ false

pub clear_run_counts :
    (p : Pmm) (s count n : ℕ) → s + count ≤ n → IsClear p s count → count ≤ clear_below p.bytes n
unfolding clear_below
clear_run_counts p s count zero h c = omega arith
clear_run_counts p s zero (suc n) h c = omega arith
clear_run_counts p s (suc count) (suc n) h c = elim (Bool-cases (s + suc count == suc n)) [
  | inl last ↦
      let at : s + count ≡ n = ground arith in
      let e : bitmap_used p.bytes n ≡ false = rw at at (c count (omega arith)) in
      ground (arith, clear_run_counts p s count n (omega arith) (λ j l. c j (omega arith)))
  | inr inside ↦ ground (arith, clear_run_counts p s (suc count) n (ground arith) c)
]

pub used-set_span :
    (m : ℕ → ℕ) (index n j : ℕ)
    → index + n < 2 ^ 64
    → bitmap_used (set_span m index n) j
      ≡ (if leb index j && ltb j (index + n) then true else bitmap_used m j)
unfolding set_span
used-set_span m index zero j h = ground arith
used-set_span m index (suc n) j h =
    ground (arith, used-set m index j, used-set_span (bitmap_set m index) (add64 index 1) n j)

clear_below-set_span :
    (m : ℕ → ℕ) (index n bits : ℕ)
    → bits < 2 ^ 64
    → index + n ≤ bits
    → ((j : ℕ) → j < n → bitmap_used m (index + j) ≡ false)
    → clear_below (set_span m index n) bits + n ≡ clear_below m bits
unfolding set_span
clear_below-set_span m index zero bits s h u = omega arith
clear_below-set_span m index (suc n) bits s h u = omega (
  arith,
  clear_below-set_span (bitmap_set m index) (add64 index 1) n bits s (omega arith) later,
  clear_below-set m index bits (omega arith) first_clear,
)
  where
    first_clear : bitmap_used m index ≡ false
    first_clear = let e : index + 0 ≡ index = omega arith in rw e at (u 0 (omega arith))

    later : (j : ℕ) → j < n → bitmap_used (bitmap_set m index) (add64 index 1 + j) ≡ false
    later j l =
        let e : add64 index 1 + j ≡ index + suc j = omega arith in
        rw e (ground (arith, used-set m index (index + suc j), u (suc j)))

-- Marking a clear run keeps the invariant.
pub take_run-IsValid :
    (p : Pmm) (start count : ℕ)
    → IsValid p
    → 0 < count
    → start + count ≤ p.bitmap_bits
    → IsClear p start count
    → IsValid (take_run p start count)
unfolding take_run frame_managed frame_is_bitmap
take_run-IsValid p start count v pos h c = record {
  ready = v.ready;
  mapped = v.mapped;
  nonempty = v.nonempty;
  hint_in = ground (arith, v.spans);
  counted = omega (arith, v.counted, v.spans, counted, clear_below-le p.bytes p.bitmap_bits);
  within =
      omega (arith, v.counted, v.spans, v.within, counted, clear_below-le p.bytes p.bitmap_bits);
  spans = v.spans;
  above_zero = v.above_zero;
  managed = λ j l e. v.managed j l (ground (arith, bits j));
  outside = λ j l e. v.outside j l (ground (arith, bits j));
}
  where
    counted :
        clear_below (set_span p.bytes start count) p.bitmap_bits + count
        ≡ clear_below p.bytes p.bitmap_bits
    counted = clear_below-set_span p.bytes start count p.bitmap_bits (omega (arith, v.spans)) h c

    bits :
        (j : ℕ)
        → bitmap_used (set_span p.bytes start count) j
          ≡ (if leb start j && ltb j (start + count) then true else bitmap_used p.bytes j)
    bits j = used-set_span p.bytes start count j (omega (arith, v.spans))
