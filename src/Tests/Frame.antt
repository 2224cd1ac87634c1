-- ===== src/Tests/Frame.antt =====
-- src/frame.c on a bitmap in which frame 0 is taken.
use fifth_kernel.Base.{
  ℕ, ◌+◌, ◌%◌, ◌<◌, ◌≡◌, refl, ◌∙◌, arith, true, ◌||◌, ◌==◌, some, none, all_below, all_below_lem,
  ◌-◌, ◌/◌,
}
use fifth_kernel.Frame.{
  Frames, frame_count, allocate_frame, deallocate_frame, init_frames, first_free_frame,
  allocate_first_frame, bit_set,
}
use fifth_kernel.Frame.Bitmap.{IsBitmap, allocated, allocated_bit}
use fifth_kernel.Frame.Search.{IsLowestFree, allocate_first_frame_lem, first_free_frame_exhausted}
use fifth_kernel.Frame.Range.{IsLayout, init_frames-IsHeld, IsHeld, deallocate-allocate}
use fifth_kernel.Tests.Values.{one_frame, one_frame-IsBitmap, frame_1-free, ram}

allocate_first_frame_lem_example :
    (r : ℕ) × (fs' : Frames) × (allocate_first_frame one_frame ≡ some (fs', r))
    × (r < frame_count)
    × IsLowestFree one_frame r
    × IsBitmap fs'
    × ((m : ℕ) → allocated fs' m ≡ (m == r || allocated one_frame m))
allocate_first_frame_lem_example =
    allocate_first_frame_lem one_frame 1 one_frame-IsBitmap (omega arith) frame_1-free

deallocate-allocate_example :
    allocated (deallocate_frame (allocate_frame one_frame 40000).0 40000) 40000 ≡ true
deallocate-allocate_example = deallocate-allocate one_frame 40000 one_frame-IsBitmap (omega arith)

-- Every frame is taken.
abbrev full : Frames
full x = 255

full-IsBitmap : IsBitmap full
full-IsBitmap x = omega arith

full-taken : (x : ℕ) → x < frame_count → allocated full x ≡ true
unfolding all_below bit_set
full-taken x h =
    allocated_bit full x ∙ all_below_lem 8 (λ j. bit_set 255 j) (x % 8) refl (omega arith)

first_free_frame_exhausted_example : first_free_frame full ≡ none
first_free_frame_exhausted_example = first_free_frame_exhausted full full-IsBitmap full-taken

-- A kernel of sixteen pages, and a device tree behind it.
layout : IsLayout ram (ram + 65536) ram (ram + 65536) 5000
layout = record {
  kernel_in = omega arith;
  kernel_order = omega arith;
  kernel_end = omega arith;
  dtb_in = omega arith;
  dtb_end = omega arith;
}

init_frames-IsHeld_example :
    let after = init_frames one_frame ram (ram + 65536) ram (ram + 65536) 5000 in
    (allocated after 17 ≡ true
      → (a : ℕ) × IsHeld ram (ram + 65536) (ram + 65536) 5000 a × ((a - ram) / 4096 ≡ 17))
    × ((a : ℕ)
        → IsHeld ram (ram + 65536) (ram + 65536) 5000 a
        → (a - ram) / 4096 ≡ 17
        → allocated after 17 ≡ true)
init_frames-IsHeld_example =
    init_frames-IsHeld one_frame ram (ram + 65536) ram (ram + 65536) 5000 17 one_frame-IsBitmap
      layout refl refl (omega arith)
