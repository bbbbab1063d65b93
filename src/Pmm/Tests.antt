-- ===== src/Pmm/Tests.antt =====
-- The allocator of kernel/pmm.c on a bitmap of eight frames from 256 on, the first of which holds
-- the bitmap itself.
use jcos.Prelude.{
  ℕ, zero, suc, ◌+◌, ◌*◌, ◌<◌, ◌≡◌, refl, ◌⊎◌, true, false, [], ◌∷◌, arith, if◌then◌else◌, ◌==◌,
}
use jcos.Pmm.{
  phys_to_frame, Pmm, frame_alloc, frame_free, frame_free_range, pmm_alloc_pages, alloc_scan,
  test_bit, bitmap_used, frame_managed, frame_is_bitmap,
}
use jcos.Pmm.Alloc.{IsValid, Takes, frame_alloc-Takes, frame_alloc-IsValid}
use jcos.Pmm.Count.{clear_below}
use jcos.Pmm.Release.{
  IsReleased, frame_free_range_all_or_nothing, frame_free_range-IsValid, frame_free-frame_alloc,
}
use jcos.Pmm.Init.{
  MemoryMap, collect, add_descriptor, usable_frames, align_up_page, align_down_page, frames_between,
  add_range, extend_last, append_range,
}
use jcos.Pmm.Collect.{IsCollected, collect_enough, collect-IsCollected}
use jcos.Pmm.Run.{TakesRun, NoRoom, pmm_alloc_pages_first_fit, pmm_alloc_pages-IsValid}

-- Bits 0, 2 and 3 are set.
abbrev small : Pmm
small = record {
  ranges = record { first = 256; end = 264 } ∷ [];
  total_pages = 8;
  free_pages = 5;
  bitmap_physical = 256 * 4096;
  bitmap_pages = 1;
  discarded_ranges = 0;
  bitmap = 256 * 4096;
  bytes = λ _. 0b1101;
  base_frame = 256;
  bitmap_bits = 8;
  bitmap_first_frame = 256;
  bitmap_page_count = 1;
  next_hint = 2;
  initialized = true;
  use_phys_map = false;
  free_fault_armed = false;
  free_fault_first = 0;
  free_fault_count = 0;
}

small_managed : (i : ℕ) → i < 8 → frame_managed small (256 + i) ≡ true
unfolding frame_managed
small_managed i h = ground arith

small_outside :
    (i : ℕ) → bitmap_used small.bytes i ≡ false → frame_is_bitmap small (256 + i) ≡ false
unfolding frame_is_bitmap bitmap_used test_bit
small_outside zero e = cc
small_outside (suc i) e = ground arith

small-IsValid : IsValid small
unfolding clear_below bitmap_used test_bit
small-IsValid = record {
  ready = refl;
  mapped = omega arith;
  nonempty = omega arith;
  hint_in = omega arith;
  counted = refl;
  within = omega arith;
  spans = omega arith;
  above_zero = omega arith;
  managed = λ i l e. small_managed i l;
  outside = λ i l e. small_outside i e;
}

allocates_past_hint : (frame_alloc small).1 ≡ 260
unfolding frame_alloc alloc_scan bitmap_used test_bit
allocates_past_hint = refl

frame_alloc-Takes_example : Takes small (frame_alloc small)
frame_alloc-Takes_example = frame_alloc-Takes small small-IsValid (omega arith)

frame_alloc-IsValid_example : IsValid (frame_alloc small).0
frame_alloc-IsValid_example = frame_alloc-IsValid small small-IsValid

frame_free_range_all_or_nothing_example :
    (((frame_free_range small 258 2).1 ≡ true)
      × IsReleased small 258 2 (frame_free_range small 258 2).0)
    ⊎ (((frame_free_range small 258 2).1 ≡ false)
        × ((frame_free_range small 258 2).0.bytes ≡ small.bytes)
        × ((frame_free_range small 258 2).0.free_pages ≡ 5)
        × ((frame_free_range small 258 2).0.next_hint ≡ 2))
frame_free_range_all_or_nothing_example =
    frame_free_range_all_or_nothing small 258 2 small-IsValid (omega arith) (omega arith)

frame_free_range-IsValid_example : IsValid (frame_free_range small 258 2).0
frame_free_range-IsValid_example =
    frame_free_range-IsValid small 258 2 small-IsValid (omega arith) (omega arith)

frame_free-frame_alloc_example :
    ((frame_free (frame_alloc small).0 (frame_alloc small).1).1 ≡ true)
    × ((frame_free (frame_alloc small).0 (frame_alloc small).1).0.free_pages ≡ 5)
    × ((j : ℕ)
        → bitmap_used (frame_free (frame_alloc small).0 (frame_alloc small).1).0.bytes j
          ≡ bitmap_used small.bytes j)
frame_free-frame_alloc_example = frame_free-frame_alloc small small-IsValid (omega arith) refl

pmm_alloc_pages_first_fit_example :
    TakesRun small 3 (pmm_alloc_pages small 3) ⊎ NoRoom small 3 (pmm_alloc_pages small 3)
pmm_alloc_pages_first_fit_example = pmm_alloc_pages_first_fit small 3 small-IsValid (omega arith)

pmm_alloc_pages-IsValid_example : IsValid (pmm_alloc_pages small 3).0
pmm_alloc_pages-IsValid_example = pmm_alloc_pages-IsValid small 3 small-IsValid

-- Two descriptors of free memory that meet: 512 frames from 1 MiB on, and 16 frames after them.
abbrev two_descriptors : MemoryMap
two_descriptors = record {
  memory_map = 0x8000;
  memory_map_size = 80;
  descriptor_size = 40;
  descriptor_at = λ offset. record {
    kind = 7;
    padding = 0;
    physical_start = if offset == 0 then 0x100000 else 0x300000;
    virtual_start = 0;
    number_of_pages = if offset == 0 then 512 else 16;
    attribute = 0;
  };
}

collected_once : (collect 80 two_descriptors 0 ([], 0)).0 ≡ record { first = 256; end = 784 } ∷ []
unfolding collect add_descriptor usable_frames align_up_page align_down_page frames_between
    add_range extend_last append_range phys_to_frame
collected_once = refl

collect_enough_example :
    collect (80 + 5) two_descriptors 0 ([], 0) ≡ collect 80 two_descriptors 0 ([], 0)
collect_enough_example = collect_enough two_descriptors ([], 0) 5 (omega arith) (omega arith)

collect-IsCollected_example : IsCollected (collect 80 two_descriptors 0 ([], 0))
collect-IsCollected_example = collect-IsCollected 80 0 two_descriptors ([], 0) (refl, omega arith)
