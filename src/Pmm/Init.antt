-- ===== src/Pmm/Init.antt =====
-- `pmm_init` of kernel/pmm.c: the ranges collected from the firmware's memory map, and the bitmap
-- laid over them.
use jcos.Prelude.{
  ℕ, zero, suc, ◌+◌, ◌-◌, ◌*◌, ◌/◌, Bool, true, false, not, ◌||◌, Option, none, some, List, [], ◌∷◌,
  ltb, leb, ◌==◌, if◌then◌else◌, nonzero, u64_max, add64, sub64, length,
}
use jcos.Physmap.{phys_to_virt}
use jcos.Pmm.{
  Pmm, PmmRange, frame_size, frame_invalid, frame_to_phys, phys_to_frame, frame_bitmap_index,
  clear_span, set_span,
}

pub record BootMemoryDescriptor : Type 0 where
  pub kind : ℕ
  pub padding : ℕ
  pub physical_start : ℕ
  pub virtual_start : ℕ
  pub number_of_pages : ℕ
  pub attribute : ℕ

-- `sizeof(BootMemoryDescriptor)`
abbrev descriptor_bytes : ℕ
descriptor_bytes = 40

abbrev pub efi_conventional_memory : ℕ
efi_conventional_memory = 7

abbrev pub pmm_max_ranges : ℕ
pmm_max_ranges = 128

abbrev pub min_usable_address : ℕ
min_usable_address = 0x100000

-- The fields of `BootInfo` that `pmm_init` reads, and the descriptors in memory by their offset
-- from `memory_map`.
pub record MemoryMap : Type 0 where
  pub memory_map : ℕ
  pub memory_map_size : ℕ
  pub descriptor_size : ℕ
  pub descriptor_at : ℕ → BootMemoryDescriptor

unfoldable pub align_up_page : ℕ → Option ℕ
align_up_page value =
    if ltb (u64_max - (frame_size - 1)) value
    then none
    else some ((value + frame_size - 1) / frame_size * frame_size)

unfoldable pub align_down_page : ℕ → ℕ
align_down_page value = value / frame_size * frame_size

-- The frames `[first, last)` of a usable descriptor; `none` is `continue`.
unfoldable pub frames_between : ℕ → ℕ → Option (ℕ × ℕ)
frames_between start end =
    let low = if ltb start min_usable_address then min_usable_address else start in
    if leb end low
    then none
    else let first = phys_to_frame low in
      let last = phys_to_frame end in
      if (first == frame_invalid) || (last == frame_invalid) || leb last first
      then none
      else some (first, last)

unfoldable pub usable_frames : BootMemoryDescriptor → Option (ℕ × ℕ)
usable_frames d =
    if not (d.kind == efi_conventional_memory)
    then none
    else if not (nonzero d.number_of_pages)
    then none
    else if ltb (u64_max / frame_size) d.number_of_pages
    then none
    else if ltb (u64_max - d.number_of_pages * frame_size) d.physical_start
    then none
    else elim (align_up_page d.physical_start) [
      | none ↦ none
      | some start ↦
          frames_between start (align_down_page (d.physical_start + d.number_of_pages * frame_size))
    ]

-- The merge with the range before: `none` where the last range does not end at `first`.
unfoldable pub extend_last : List PmmRange → ℕ → ℕ → Option (List PmmRange)
extend_last [] first last = none
extend_last (r ∷ []) first last =
    if r.end == first then some (record r { end = last } ∷ []) else none
extend_last (r ∷ s ∷ rs) first last = elim (extend_last (s ∷ rs) first last) [
  | none ↦ none
  | some rs' ↦ some (r ∷ rs')
]

unfoldable pub append_range : List PmmRange → PmmRange → List PmmRange
append_range [] r = r ∷ []
append_range (s ∷ rs) r = s ∷ append_range rs r

-- The ranges so far, and the count of discarded ones.
abbrev pub Collected : Type 0
Collected = List PmmRange × ℕ

unfoldable pub add_range : Collected → ℕ × ℕ → Collected
add_range (ranges, discarded) (first, last) = elim (extend_last ranges first last) [
  | some merged ↦ (merged, discarded)
  | none ↦
      if leb pmm_max_ranges (length ranges)
      then (ranges, discarded + 1)
      else (append_range ranges (record { first = first; end = last }), discarded)
]

unfoldable pub add_descriptor : Collected → BootMemoryDescriptor → Collected
add_descriptor c d = elim (usable_frames d) [ none ↦ c | some frames ↦ add_range c frames ]

-- The first pass, with fuel for the descriptors left.
unfoldable pub collect : ℕ → MemoryMap → ℕ → Collected → Collected
collect zero b offset c = c
collect (suc fuel) b offset c =
    let rest =
      collect fuel b (add64 offset b.descriptor_size) (add_descriptor c (b.descriptor_at offset)) in
    if leb (add64 offset descriptor_bytes) b.memory_map_size then rest else c

pub lowest : ℕ → List PmmRange → ℕ
lowest low [] = low
lowest low (r ∷ rs) = lowest (if ltb r.first low then r.first else low) rs

pub highest : ℕ → List PmmRange → ℕ
highest high [] = high
highest high (r ∷ rs) = highest (if ltb high r.end then r.end else high) rs

pub sum_pages : ℕ → List PmmRange → ℕ
sum_pages total [] = total
sum_pages total (r ∷ rs) = sum_pages (add64 total (sub64 r.end r.first)) rs

-- The first range with room for the bitmap.
pub bitmap_home : List PmmRange → ℕ → ℕ
bitmap_home [] pages = frame_invalid
bitmap_home (r ∷ rs) pages =
    let rest = bitmap_home rs pages in if leb pages (sub64 r.end r.first) then r.first else rest

-- The second `for`: the frames of each range become free.
clear_ranges : (ℕ → ℕ) → ℕ → List PmmRange → ℕ → ℕ
clear_ranges m base [] = m
clear_ranges m base (r ∷ rs) =
    clear_ranges (clear_span m (sub64 r.first base) (r.end - r.first)) base rs

-- `k_memset(g_bitmap, 0xFF, …)`
fill : (ℕ → ℕ) → ℕ → ℕ → ℕ
fill m count b = if ltb b count then 0xff else m b

pub pmm_reset : Pmm → Pmm
pmm_reset p = record p {
  ranges = [];
  total_pages = 0;
  free_pages = 0;
  bitmap_physical = 0;
  bitmap_pages = 0;
  discarded_ranges = 0;
  bitmap = 0;
  base_frame = frame_invalid;
  bitmap_bits = 0;
  bitmap_first_frame = frame_invalid;
  bitmap_page_count = 0;
  next_hint = 0;
  initialized = false;
  use_phys_map = false;
  free_fault_armed = false;
}

-- The part after the bitmap's home is known; `memory` is what stands at that address.
unfoldable pub lay_bitmap : Pmm → (ℕ → ℕ → ℕ) → Pmm × Bool
unfolding clear_ranges fill
lay_bitmap p memory =
    let physical = frame_to_phys p.bitmap_first_frame in
    if not (nonzero physical)
    then (p, false)
    else if ltb (u64_max / frame_size) p.bitmap_page_count
    then (p, false)
    else let filled = fill (memory physical) (p.bitmap_page_count * frame_size) in
      let freed = clear_ranges filled p.base_frame p.ranges in
      let bytes = set_span freed (frame_bitmap_index p p.bitmap_first_frame) p.bitmap_page_count in
      let q = record p { bitmap = physical; bytes = bytes } in
      if ltb p.total_pages p.bitmap_page_count then (q, false) else (
        record q {
          free_pages = p.total_pages - p.bitmap_page_count;
          bitmap_physical = physical;
          bitmap_pages = p.bitmap_page_count;
          next_hint = 0;
          initialized = true;
        },
        true,
      )

-- From the ranges to the bitmap's home.
unfoldable pub place_bitmap : Pmm → (ℕ → ℕ → ℕ) → ℕ → ℕ → Pmm × Bool
unfolding lay_bitmap
place_bitmap p memory low high =
    if leb high low
    then (p, false)
    else let q = record p { base_frame = low; bitmap_bits = high - low } in
      if ltb (u64_max - 7) (high - low)
      then (q, false)
      else let bytes = (high - low + 7) / 8 in
        if not (nonzero bytes) || ltb (u64_max - (frame_size - 1)) bytes
        then (q, false)
        else let pages = (bytes + frame_size - 1) / frame_size in
          let counted = record q { bitmap_page_count = pages } in
          if not (nonzero pages)
          then (counted, false)
          else let home = bitmap_home p.ranges pages in
            let homed = record counted { bitmap_first_frame = home } in
            if home == frame_invalid then (homed, false) else lay_bitmap homed memory

unfoldable pub place_ranges : Pmm → (ℕ → ℕ → ℕ) → List PmmRange → Pmm × Bool
unfolding place_bitmap
place_ranges p memory [] = (p, false)
place_ranges p memory (r ∷ rs) =
    place_bitmap (record p { total_pages = sum_pages 0 p.ranges }) memory (lowest r.first p.ranges)
      (highest r.end p.ranges)

-- `none` is a null `boot`. `memory a` is what stands at physical address `a` before the bitmap.
unfoldable pub pmm_init : Option MemoryMap → (ℕ → ℕ → ℕ) → Pmm → Pmm × Bool
unfolding place_ranges
pmm_init none memory p = (pmm_reset p, false)
pmm_init (some b) memory p =
    if not (nonzero b.memory_map)
      || not (nonzero b.memory_map_size)
      || ltb b.descriptor_size descriptor_bytes
    then (pmm_reset p, false)
    else let (ranges, discarded) = collect b.memory_map_size b 0 ([], 0) in
      place_ranges (record (pmm_reset p) { ranges = ranges; discarded_ranges = discarded }) memory
        ranges

pub pmm_enable_phys_map_access : Pmm → Pmm × Bool
pmm_enable_phys_map_access p =
    if not p.initialized
      || not (nonzero p.bitmap)
      || not (nonzero p.bitmap_physical)
      || not (nonzero p.bitmap_pages)
    then (p, false)
    else let direct = phys_to_virt p.bitmap_physical in
      if not (nonzero direct)
      then (p, false)
      else (record p { bitmap = direct; use_phys_map = true }, true)
