-- ===== src/Pmm/Collect.antt =====
-- The first pass of `pmm_init` of kernel/pmm.c: the fuel is enough, and the ranges that it collects
-- are usable.
use jcos.Prelude.{
  ℕ, zero, suc, ◌+◌, ◌*◌, ◌^◌, ◌≤◌, ◌<◌, ◌≡◌, refl, sym, inl, inr, Bool, true, false, ◌&&◌, some,
  List, [], ◌∷◌, arith, ltb, leb, ◌==◌, Bool-cases, Option-cases, u64_max, add64, length, if_both,
  some_inj,
}
use jcos.Pmm.{PmmRange, frame_size, phys_to_frame}
use jcos.Pmm.Init.{
  BootMemoryDescriptor, MemoryMap, align_up_page, align_down_page, frames_between, usable_frames,
  extend_last, append_range, Collected, add_range, add_descriptor, collect,
}

-- More rounds than the map has bytes past the offset change nothing.
rounds_enough :
    (rounds fuel offset : ℕ) (b : MemoryMap) (c : Collected)
    → 40 ≤ b.descriptor_size
    → b.memory_map_size + b.descriptor_size + 40 < 2 ^ 64
    → b.memory_map_size ≤ fuel + offset
    → offset ≤ b.memory_map_size + b.descriptor_size
    → fuel ≤ rounds
    → collect rounds b offset c ≡ collect fuel b offset c
unfolding collect
rounds_enough zero zero offset b c d s f w le = refl
rounds_enough zero (suc fuel) offset b c d s f w le = absurd (omega arith)
rounds_enough (suc rounds) zero offset b c d s f w le =
    let past : leb (add64 offset 40) b.memory_map_size ≡ false = ground arith in rw past refl
rounds_enough (suc rounds) (suc fuel) offset b c d s f w le =
    let next = add64 offset b.descriptor_size in
    let rest = add_descriptor c (b.descriptor_at offset) in
    elim (Bool-cases (leb (add64 offset 40) b.memory_map_size)) [
      | inl inside ↦
          let within : offset + 40 ≤ b.memory_map_size = ground arith in
          rw inside
            (rounds_enough rounds fuel next b rest d s (omega arith) (omega arith) (omega arith))
      | inr past ↦ rw past refl
    ]

-- The pass over the memory map needs no more rounds than the map has bytes: with descriptors of at
-- least 40 bytes, and a map whose end and next descriptor have addresses, every larger fuel collects
-- the same ranges.
pub collect_enough :
    (b : MemoryMap) (c : Collected) (extra : ℕ)
    → 40 ≤ b.descriptor_size
    → b.memory_map_size + b.descriptor_size + 40 < 2 ^ 64
    → collect (b.memory_map_size + extra) b 0 c ≡ collect b.memory_map_size b 0 c
collect_enough b c extra d s =
    rounds_enough (b.memory_map_size + extra) b.memory_map_size 0 b c d s (omega arith)
      (omega arith) (omega arith)

-- A range of frames above the first MiB, whose last byte has an address.
abbrev pub usable : PmmRange → Bool
usable r = leb 256 r.first && ltb r.first r.end && leb r.end (2 ^ 52)

abbrev pub all_usable : List PmmRange → Bool
all_usable [] = true
all_usable (r ∷ rs) = usable r && all_usable rs

frames_between_usable :
    (start end first last : ℕ)
    → end < 2 ^ 64
    → frames_between start end ≡ some (first, last)
    → (256 ≤ first) × (first < last) × (last ≤ 2 ^ 52)
unfolding frames_between phys_to_frame
frames_between_usable start end first last h e = ground arith

usable_frames_lem :
    (d : BootMemoryDescriptor) (first last : ℕ)
    → usable_frames d ≡ some (first, last)
    → (256 ≤ first) × (first < last) × (last ≤ 2 ^ 52)
unfolding usable_frames align_down_page
usable_frames_lem d first last e = elim (Option-cases (align_up_page d.physical_start)) [
  | inl too_high ↦ absurd (ground arith)
  | inr (start, aligned) ↦
      let bytes = d.number_of_pages * frame_size in
      let fits : d.physical_start + bytes ≤ u64_max = ground arith in
      let end : align_down_page (d.physical_start + bytes) < 2 ^ 64 = omega (arith, fits) in
      let inner : frames_between start (align_down_page (d.physical_start + bytes))
          ≡ some (first, last) =
        ground arith in
      frames_between_usable start (align_down_page (d.physical_start + bytes)) first last end inner
]

-- The ranges so far: usable, and no more than the array holds.
abbrev pub IsCollected : Collected → Type 0
IsCollected c = (all_usable c.0 ≡ true) × (length c.0 ≤ 128)

extend_last_usable :
    (rs : List PmmRange) (first last : ℕ) {merged : List PmmRange}
    → all_usable rs ≡ true
    → first < last
    → last ≤ 2 ^ 52
    → extend_last rs first last ≡ some merged
    → (all_usable merged ≡ true) × (length merged ≡ length rs)
unfolding extend_last
extend_last_usable [] first last u lt hi e = absurd (ground arith)
extend_last_usable (r ∷ []) first last {merged} u lt hi e = elim (Bool-cases (r.end == first)) [
  | inl meets ↦
      let m : record { first = r.first; end = last } ∷ [] ≡ merged = some_inj (rw meets at e) in
      rw (sym m) (ground arith)
  | inr apart ↦ absurd (ground arith)
]
extend_last_usable (r ∷ s ∷ rs) first last {merged} u lt hi e =
    elim (Option-cases (extend_last (s ∷ rs) first last)) [
      | inl apart ↦ absurd (ground arith)
      | inr (tail, inner) ↦
          let m : r ∷ tail ≡ merged = some_inj (rw inner at e) in
          let (w, l) = extend_last_usable (s ∷ rs) first last (ground arith) lt hi inner in
          rw (sym m) (ground arith)
    ]

append_usable :
    (rs : List PmmRange) (r : PmmRange)
    → all_usable rs ≡ true
    → usable r ≡ true
    → (all_usable (append_range rs r) ≡ true) × (length (append_range rs r) ≡ length rs + 1)
unfolding append_range
append_usable [] r u v = ground arith
append_usable (s ∷ rs) r u v = let (w, l) = append_usable rs r (ground arith) v in ground arith

add_range-IsCollected :
    (c : Collected) (first last : ℕ)
    → IsCollected c
    → 256 ≤ first
    → first < last
    → last ≤ 2 ^ 52
    → IsCollected (add_range c (first, last))
unfolding add_range
add_range-IsCollected (ranges, discarded) first last v lo lt hi =
    elim (Option-cases (extend_last ranges first last)) [
      | inr (merged, e) ↦
          let (u, l) = extend_last_usable ranges first last v.0 lt hi e in
          rw (e, add_range) (u, omega (arith, l, v.1))
      | inl apart ↦
          let (u, l) =
            append_usable ranges (record { first = first; end = last }) v.0 (ground arith) in
          rw (apart, add_range)
            (if_both IsCollected (leb 128 (length ranges)) (λ _. v) (λ room. (u, ground arith)))
    ]

add_descriptor-IsCollected :
    (c : Collected) (d : BootMemoryDescriptor) → IsCollected c → IsCollected (add_descriptor c d)
unfolding add_descriptor
add_descriptor-IsCollected c d v = elim (Option-cases (usable_frames d)) [
  | inl skipped ↦ rw (skipped, add_descriptor) v
  | inr ((first, last), e) ↦
      let (lo, lt, hi) = usable_frames_lem d first last e in
      rw (e, add_descriptor) (add_range-IsCollected c first last v lo lt hi)
]

-- Whatever memory map the firmware hands over, the pass keeps its ranges within the array of 128, and
-- each range is not empty, lies above the first MiB, and ends where an address of 64 bits ends.
pub collect-IsCollected :
    (rounds offset : ℕ) (b : MemoryMap) (c : Collected)
    → IsCollected c
    → IsCollected (collect rounds b offset c)
unfolding collect
collect-IsCollected zero offset b c v = v
collect-IsCollected (suc rounds) offset b c v =
    if_both IsCollected (leb (add64 offset 40) b.memory_map_size)
      (λ _.
        collect-IsCollected rounds (add64 offset b.descriptor_size) b
          (add_descriptor c (b.descriptor_at offset))
          (add_descriptor-IsCollected c (b.descriptor_at offset) v))
      (λ _. v)
