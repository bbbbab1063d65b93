-- ===== src/Pmm.antt =====
-- kernel/pmm.c: the physical frame allocator. Its state, the bitmap, allocation and release.
-- Every public entry holds local IRQ exclusion throughout, so an operation is one step.
pub mod Init
pub mod Collect
pub mod Bits
pub mod Count
pub mod Alloc
pub mod Release
pub mod Spans
pub mod Run
mod Tests
use jcos.Prelude.{
  ℕ, zero, suc, ◌+◌, ◌-◌, ◌*◌, ◌/◌, ◌%◌, ◌^◌, bit_and, bit_or, Bool, true, false, not, ◌&&◌, ◌||◌,
  List, [], ◌∷◌, ltb, leb, ◌==◌, nonzero, if◌then◌else◌, u8, u64_max, add64, sub64,
}

abbrev pub frame_size : ℕ
frame_size = 4096

abbrev pub frame_invalid : ℕ
frame_invalid = 2 ^ 64 - 1

-- Frame numbers; `end` is exclusive.
pub record PmmRange : Type 0 where
  pub first : ℕ
  pub end : ℕ

-- The file's statics and its `PmmStats`. `ranges` holds the first `range_count` entries of
-- `g_ranges`; `bytes` is the memory that `g_bitmap` points at.
pub record Pmm : Type 0 where
  pub ranges : List PmmRange
  pub total_pages : ℕ
  pub free_pages : ℕ
  pub bitmap_physical : ℕ
  pub bitmap_pages : ℕ
  pub discarded_ranges : ℕ
  pub bitmap : ℕ
  pub bytes : ℕ → ℕ
  pub base_frame : ℕ
  pub bitmap_bits : ℕ
  pub bitmap_first_frame : ℕ
  pub bitmap_page_count : ℕ
  pub next_hint : ℕ
  pub initialized : Bool
  pub use_phys_map : Bool
  pub free_fault_armed : Bool
  pub free_fault_first : ℕ
  pub free_fault_count : ℕ

range_holds : List PmmRange → ℕ → Bool
range_holds [] frame = false
range_holds (r ∷ rs) frame =
    let rest = range_holds rs frame in if leb r.first frame && ltb frame r.end then true else rest

pub frame_managed : Pmm → ℕ → Bool
unfolding range_holds
frame_managed p frame = range_holds p.ranges frame

pub frame_is_bitmap : Pmm → ℕ → Bool
frame_is_bitmap p frame =
    if p.bitmap_first_frame == frame_invalid
    then false
    else if ltb frame p.bitmap_first_frame
    then false
    else ltb (frame - p.bitmap_first_frame) p.bitmap_page_count

-- `(u8)(1U << bit)`
abbrev pub mask : ℕ → ℕ
mask bit = u8 (2 ^ bit)

pub test_bit : ℕ → ℕ → Bool
test_bit byte bit = nonzero (bit_and byte (mask bit))

pub set_bit : ℕ → ℕ → ℕ
set_bit byte bit = u8 (bit_or byte (mask bit))

pub clear_bit : ℕ → ℕ → ℕ
clear_bit byte bit = u8 (bit_and byte (255 - mask bit))

abbrev pub store : (ℕ → ℕ) → ℕ → ℕ → ℕ → ℕ
store m a v b = if a == b then v else m b

pub bitmap_used : (ℕ → ℕ) → ℕ → Bool
bitmap_used m index = test_bit (u8 (m (index / 8))) (index % 8)

pub bitmap_set : (ℕ → ℕ) → ℕ → ℕ → ℕ
bitmap_set m index = store m (index / 8) (set_bit (u8 (m (index / 8))) (index % 8))

pub bitmap_clear : (ℕ → ℕ) → ℕ → ℕ → ℕ
bitmap_clear m index = store m (index / 8) (clear_bit (u8 (m (index / 8))) (index % 8))

abbrev pub frame_bitmap_index : Pmm → ℕ → ℕ
frame_bitmap_index p frame = sub64 frame p.base_frame

unfoldable pub frame_to_phys : ℕ → ℕ
frame_to_phys frame =
    if frame == frame_invalid
    then 0
    else if ltb (u64_max / frame_size) frame
    then 0
    else frame * frame_size

unfoldable pub phys_to_frame : ℕ → ℕ
phys_to_frame physical =
    if nonzero (physical % frame_size) then frame_invalid else physical / frame_size

-- `if (index >= g_bitmap_bits) index = 0`
abbrev pub wrap_index : Pmm → ℕ → ℕ
wrap_index p index = if leb p.bitmap_bits index then 0 else index

-- What the loop of `frame_alloc_locked` commits at a clear bit.
pub take_frame : Pmm → ℕ → Pmm
take_frame p index = record p {
  bytes = bitmap_set p.bytes index;
  free_pages = sub64 p.free_pages 1;
  next_hint = wrap_index p (add64 index 1);
}

-- The loop with `left` rounds to go.
pub alloc_scan : Pmm → ℕ → ℕ → Pmm × ℕ
alloc_scan p zero index = (p, frame_invalid)
alloc_scan p (suc left) index =
    let rest = alloc_scan p left (wrap_index p (add64 index 1)) in
    if not (bitmap_used p.bytes index) then (take_frame p index, add64 p.base_frame index) else rest

pub frame_alloc : Pmm → Pmm × ℕ
frame_alloc p =
    if not p.initialized
      || not (nonzero p.bitmap)
      || not (nonzero p.bitmap_bits)
      || not (nonzero p.free_pages)
    then (p, frame_invalid)
    else alloc_scan p p.bitmap_bits p.next_hint

-- The per-frame loop of `free_range_valid`, at frame `first + i`.
pub span_held : Pmm → ℕ → ℕ → ℕ → ℕ → Bool
span_held p first index zero i = true
span_held p first index (suc left) i =
    let rest = span_held p first index left (i + 1) in
    if not (frame_managed p (add64 first i)) || frame_is_bitmap p (add64 first i)
    then false
    else if not (bitmap_used p.bytes (add64 index i))
    then false
    else rest

pub free_range_valid : Pmm → ℕ → ℕ → Bool
free_range_valid p first count =
    if not p.initialized
      || not (nonzero p.bitmap)
      || not (nonzero count)
      || (first == frame_invalid)
    then false
    else if ltb first p.base_frame || ltb (u64_max / frame_size) first
    then false
    else if ltb (u64_max / frame_size - first) (sub64 count 1)
    then false
    else if leb p.bitmap_bits (frame_bitmap_index p first)
        || ltb (p.bitmap_bits - frame_bitmap_index p first) count
    then false
    else if ltb p.total_pages p.free_pages
    then false
    else if ltb (p.total_pages - p.free_pages) count
    then false
    else span_held p first (frame_bitmap_index p first) count 0

-- `for (i = 0; i < count; ++i) bitmap_clear(index + i)`
pub clear_span : (ℕ → ℕ) → ℕ → ℕ → ℕ → ℕ
clear_span m index zero = m
clear_span m index (suc left) = clear_span (bitmap_clear m index) (add64 index 1) left

pub set_span : (ℕ → ℕ) → ℕ → ℕ → ℕ → ℕ
set_span m index zero = m
set_span m index (suc left) = set_span (bitmap_set m index) (add64 index 1) left

-- What `frame_free_range` commits.
pub release_span : Pmm → ℕ → ℕ → Pmm
release_span p first count = record p {
  bytes = clear_span p.bytes (frame_bitmap_index p first) count;
  free_pages = add64 p.free_pages count;
  next_hint = frame_bitmap_index p first;
}

pub frame_free_range : Pmm → ℕ → ℕ → Pmm × Bool
frame_free_range p first count =
    if not (free_range_valid p first count)
    then (p, false)
    else if p.free_fault_armed && (first == p.free_fault_first) && (count == p.free_fault_count)
    then (record p { free_fault_armed = false }, false)
    else (release_span p first count, true)

pub frame_free : Pmm → ℕ → Pmm × Bool
unfolding frame_free_range
frame_free p frame = frame_free_range p frame 1

pub pmm_test_fail_free_range_once : Pmm → ℕ → ℕ → Pmm × Bool
pmm_test_fail_free_range_once p first count =
    if not p.free_fault_armed && free_range_valid p first count
    then (
      record p { free_fault_first = first; free_fault_count = count; free_fault_armed = true },
      true,
    )
    else (p, false)

pub pmm_test_clear_free_failure : Pmm → Pmm
pmm_test_clear_free_failure p = record p { free_fault_armed = false }

-- What `pmm_alloc_pages_locked` commits for a run of `count` clear bits.
pub take_run : Pmm → ℕ → ℕ → Pmm
take_run p start count = record p {
  bytes = set_span p.bytes start count;
  free_pages = sub64 p.free_pages count;
  next_hint = wrap_index p (add64 start count);
}

-- The search of `pmm_alloc_pages_locked` at bit `index`, with `left` bits to go and a run of
-- `length` clear bits from `start` behind it.
pub run_scan : Pmm → (count left index start length : ℕ) → Pmm × ℕ
run_scan p count zero index start length = (p, 0)
run_scan p count (suc left) index start length =
    let start' = if nonzero length then start else index in
    let length' = add64 length 1 in
    let broken = run_scan p count left (add64 index 1) start 0 in
    let longer = run_scan p count left (add64 index 1) start' length' in
    if bitmap_used p.bytes index
    then broken
    else if ltb length' count
    then longer
    else (take_run p start' count, frame_to_phys (add64 p.base_frame start'))

pub pmm_alloc_pages : Pmm → ℕ → Pmm × ℕ
pmm_alloc_pages p count =
    if not p.initialized || not (nonzero count) || ltb p.free_pages count || ltb p.bitmap_bits count
    then (p, 0)
    else run_scan p count p.bitmap_bits 0 0 0

pub pmm_alloc_page : Pmm → Pmm × ℕ
pmm_alloc_page p =
    let (q, frame) = frame_alloc p in
    if frame == frame_invalid then (q, 0) else (q, frame_to_phys frame)
