-- ===== src/Frame/Range.antt =====
-- `allocate_n_frames` and `init_frames` of src/frame.c.
use fifth_kernel.Base.{
  ℕ, zero, suc, ◌+◌, ◌-◌, ◌/◌, ◌%◌, ◌^◌, ◌≤◌, ◌<◌, ◌≡◌, arith, Bool, true, false, ◌&&◌, ◌||◌, ltb,
  leb, if◌then◌else◌, ◌⊎◌, inl, inr, Bool-cases, ◌*◌,
}
use native.Mathlib.Nat.{zero-div}
use fifth_kernel.Mem.{page_of}
use fifth_kernel.Frame.{
  Frames, frame_bytes, frame_count, set_byte, bit_set, pages, sub_size, allocate_frame,
  deallocate_frame, allocate_loop, allocate_n_frames, clear_loop, init_frames,
}
use fifth_kernel.Frame.Bitmap.{
  IsBitmap, allocated, allocated_bit, allocate_frame_lem, allocate_frame-IsBitmap,
  deallocate_frame_lem,
}

-- The frame is one of `count` frames of the bitmap from `start` on.
abbrev pub in_range : (start count n : ℕ) → Bool
in_range start count n = leb start n && ltb n (start + count) && ltb n frame_count

allocate_loop_lem :
    (left : ℕ) (fs : Frames) (i n : ℕ)
    → IsBitmap fs
    → allocated (allocate_loop left fs i) n ≡ (in_range i left n || allocated fs n)
unfolding allocate_loop
allocate_loop_lem zero fs i n bytes = ground arith
allocate_loop_lem (suc left) fs i n bytes = ground (
  arith,
  allocate_loop_lem left (allocate_frame fs i).0 (i + 1) n (allocate_frame-IsBitmap fs i bytes),
  allocate_frame_lem fs i n bytes,
)

allocate_loop-IsBitmap :
    (left : ℕ) (fs : Frames) (i : ℕ) → IsBitmap fs → IsBitmap (allocate_loop left fs i)
unfolding allocate_loop
allocate_loop-IsBitmap zero fs i bytes = bytes
allocate_loop-IsBitmap (suc left) fs i bytes =
    allocate_loop-IsBitmap left (allocate_frame fs i).0 (i + 1) (allocate_frame-IsBitmap fs i bytes)

-- Where `start + count` does not wrap, `allocate_n_frames` allocates the frames of the bitmap in
-- that range, and changes the state of no other frame.
pub allocate_n_frames_lem :
    (fs : Frames) (start count n : ℕ)
    → IsBitmap fs
    → start + count < 2 ^ 64
    → allocated (allocate_n_frames fs start count) n ≡ (in_range start count n || allocated fs n)
unfolding allocate_n_frames
allocate_n_frames_lem fs start count n bytes fits =
    let rounds : (start + count) % 2 ^ 64 - start ≡ count = omega arith in
    rw rounds (allocate_loop_lem count fs start n bytes)

allocate_n_frames-IsBitmap :
    (fs : Frames) (start count : ℕ) → IsBitmap fs → IsBitmap (allocate_n_frames fs start count)
unfolding allocate_n_frames
allocate_n_frames-IsBitmap fs start count bytes =
    allocate_loop-IsBitmap ((start + count) % 2 ^ 64 - start) fs start bytes

clear_loop-at :
    (left : ℕ) (fs : Frames) (i x : ℕ)
    → clear_loop left fs i x ≡ (if leb i x && ltb x (i + left) then 0 else fs x)
unfolding clear_loop
clear_loop-at zero fs i x = ground arith
clear_loop-at (suc left) fs i x = ground (arith, clear_loop-at left (set_byte fs i 0) (i + 1) x)

clear_loop-IsBitmap :
    (left : ℕ) (fs : Frames) (i : ℕ) → IsBitmap fs → IsBitmap (clear_loop left fs i)
clear_loop-IsBitmap left fs i bytes x = ground (arith, clear_loop-at left fs i x, bytes x)

bit_set-zero : (j : ℕ) → bit_set 0 j ≡ false
unfolding bit_set
bit_set-zero j = rw (zero-div)

cleared :
    (fs : Frames) (n : ℕ) → n < frame_count → allocated (clear_loop frame_bytes fs 0) n ≡ false
cleared fs n h = ground (
  arith,
  allocated_bit (clear_loop frame_bytes fs 0) n,
  clear_loop-at frame_bytes fs 0 (n / 8),
  bit_set-zero (n % 8),
)

-- The arguments with which `kernel_init` has `init_frames` run: the kernel and the device tree lie
-- in memory from `ram_start` on, and their ends are no nearer to 2 ^ 64 than a page.
pub record IsLayout (kernel_start_addr kernel_end_addr ram_start dtb dtb_size : ℕ) : Type 0 where
  pub kernel_in : ram_start ≤ kernel_start_addr
  pub kernel_order : kernel_start_addr ≤ kernel_end_addr
  pub kernel_end : kernel_end_addr + 4096 < 2 ^ 64
  pub dtb_in : ram_start ≤ dtb
  pub dtb_end : dtb + dtb_size + 4096 < 2 ^ 64

page_of-sub_size : (a b : ℕ) → b ≤ a → a < 2 ^ 64 → page_of (sub_size a b) ≡ (a - b) / 4096
unfolding page_of
page_of-sub_size a b h fits = omega arith

pages_lem : (a : ℕ) → a + 4095 < 2 ^ 64 → pages a ≡ (a + 4095) / 4096
unfolding pages
pages_lem a fits = omega arith

init_frames_pages :
    (fs : Frames) (kernel_start_addr kernel_end_addr ram_start dtb dtb_size : ℕ)
    → IsLayout kernel_start_addr kernel_end_addr ram_start dtb dtb_size
    → init_frames fs kernel_start_addr kernel_end_addr ram_start dtb dtb_size
      ≡ allocate_n_frames
          (allocate_n_frames
            (clear_loop frame_bytes fs 0)
            ((kernel_start_addr - ram_start) / 4096)
            ((kernel_end_addr - kernel_start_addr + 4095) / 4096))
          ((dtb - ram_start) / 4096)
          ((dtb_size + 4095) / 4096)
unfolding init_frames
init_frames_pages fs ks ke rs dtb size l =
    let size_eq : sub_size ke ks ≡ ke - ks = omega (arith, l.kernel_order, l.kernel_end) in
    rw (
      page_of-sub_size ks rs l.kernel_in (omega arith),
      size_eq,
      pages_lem (ke - ks) (omega arith),
      page_of-sub_size dtb rs l.dtb_in (omega arith),
      pages_lem size (omega arith),
    )

-- Whatever the array held, `init_frames` leaves the frames of the kernel's pages and of the device
-- tree's pages allocated, and every other frame of the bitmap free.
pub init_frames_lem :
    (fs : Frames) (kernel_start_addr kernel_end_addr ram_start dtb dtb_size n : ℕ)
    → IsBitmap fs
    → IsLayout kernel_start_addr kernel_end_addr ram_start dtb dtb_size
    → n < frame_count
    → allocated (init_frames fs kernel_start_addr kernel_end_addr ram_start dtb dtb_size) n ≡ (
        in_range ((dtb - ram_start) / 4096) ((dtb_size + 4095) / 4096) n
        || in_range
            ((kernel_start_addr - ram_start) / 4096)
            ((kernel_end_addr - kernel_start_addr + 4095) / 4096)
            n)
init_frames_lem fs ks ke rs dtb size n bytes l h = rw (init_frames_pages fs ks ke rs dtb size l) (
    ground (
      arith,
      cleared fs n h,
      allocate_n_frames_lem empty ((ks - rs) / 4096) ((ke - ks + 4095) / 4096) n clean
          (omega arith),
      allocate_n_frames_lem (allocate_n_frames empty ((ks - rs) / 4096) ((ke - ks + 4095) / 4096))
          ((dtb - rs) / 4096) ((size + 4095) / 4096) n
          (allocate_n_frames-IsBitmap empty ((ks - rs) / 4096) ((ke - ks + 4095) / 4096) clean)
          (omega arith),
    ))
  where
    empty : Frames
    empty = clear_loop frame_bytes fs 0

    clean : IsBitmap empty
    clean = clear_loop-IsBitmap frame_bytes fs 0 bytes

pub init_frames_covers :
    (fs : Frames) (kernel_start_addr kernel_end_addr ram_start dtb dtb_size a : ℕ)
    → IsBitmap fs
    → IsLayout kernel_start_addr kernel_end_addr ram_start dtb dtb_size
    → (kernel_start_addr - ram_start) % 4096 ≡ 0
    → (dtb - ram_start) % 4096 ≡ 0
    → ((kernel_start_addr ≤ a) × (a < kernel_end_addr)) ⊎ ((dtb ≤ a) × (a < dtb + dtb_size))
    → (a - ram_start) / 4096 < frame_count
    → allocated
        (init_frames fs kernel_start_addr kernel_end_addr ram_start dtb dtb_size)
        ((a - ram_start) / 4096)
      ≡ true
init_frames_covers fs ks ke rs dtb size a bytes l p q (inl here) h =
    ground (arith, init_frames_lem fs ks ke rs dtb size ((a - rs) / 4096) bytes l h)
init_frames_covers fs ks ke rs dtb size a bytes l p q (inr here) h =
    ground (arith, init_frames_lem fs ks ke rs dtb size ((a - rs) / 4096) bytes l h)

-- The byte at `a` is one of the kernel's image or of the device tree.
abbrev pub IsHeld : (kernel_start_addr kernel_end_addr dtb dtb_size a : ℕ) → Type 0
IsHeld kernel_start_addr kernel_end_addr dtb dtb_size a =
    ((kernel_start_addr ≤ a) × (a < kernel_end_addr)) ⊎ ((dtb ≤ a) × (a < dtb + dtb_size))

-- Whatever the array held, where the kernel and the device tree start on page boundaries of memory,
-- `init_frames` leaves a frame of the bitmap allocated exactly if it holds a byte of the kernel's
-- image or of the device tree.
pub init_frames-IsHeld :
    (fs : Frames) (kernel_start_addr kernel_end_addr ram_start dtb dtb_size n : ℕ)
    → IsBitmap fs
    → IsLayout kernel_start_addr kernel_end_addr ram_start dtb dtb_size
    → (kernel_start_addr - ram_start) % 4096 ≡ 0
    → (dtb - ram_start) % 4096 ≡ 0
    → n < frame_count
    → (let after = init_frames fs kernel_start_addr kernel_end_addr ram_start dtb dtb_size in
        (allocated after n ≡ true
          → (a : ℕ) × IsHeld kernel_start_addr kernel_end_addr dtb dtb_size a
            × ((a - ram_start) / 4096 ≡ n))
        × ((a : ℕ)
            → IsHeld kernel_start_addr kernel_end_addr dtb dtb_size a
            → (a - ram_start) / 4096 ≡ n
            → allocated after n ≡ true))
init_frames-IsHeld fs ks ke rs dtb size n bytes l p q h = (
  (λ marked. (
    rs + 4096 * n,
    first (Bool-cases (in_range ((dtb - rs) / 4096) ((size + 4095) / 4096) n)) marked,
    omega arith,
  )),
  λ a here at. rw at at (init_frames_covers fs ks ke rs dtb size a bytes l p q here (omega arith)),
)
  where
    first :
        (in_range ((dtb - rs) / 4096) ((size + 4095) / 4096) n ≡ true)
          ⊎ (in_range ((dtb - rs) / 4096) ((size + 4095) / 4096) n ≡ false)
        → allocated (init_frames fs ks ke rs dtb size) n ≡ true
        → IsHeld ks ke dtb size (rs + 4096 * n)
    first (inl tree) marked = inr (ground (arith, l.dtb_in))
    first (inr other) marked =
        inl (ground (arith, init_frames_lem fs ks ke rs dtb size n bytes l h, l.kernel_in))

-- A frame that `allocate_frame` took comes free again by `deallocate_frame` exactly if it is below
-- 32768; the upper seven eighths of the bitmap stay allocated.
pub deallocate-allocate :
    (fs : Frames) (n : ℕ)
    → IsBitmap fs
    → n < frame_count
    → allocated (deallocate_frame (allocate_frame fs n).0 n) n ≡ leb frame_bytes n
deallocate-allocate fs n bytes h = ground (
  arith,
  allocate_frame_lem fs n n bytes,
  deallocate_frame_lem (allocate_frame fs n).0 n n (allocate_frame-IsBitmap fs n bytes),
)

pub init_frames-IsBitmap :
    (fs : Frames) (kernel_start_addr kernel_end_addr ram_start dtb dtb_size : ℕ)
    → IsBitmap fs
    → IsBitmap (init_frames fs kernel_start_addr kernel_end_addr ram_start dtb dtb_size)
unfolding init_frames
init_frames-IsBitmap fs kernel_start_addr kernel_end_addr ram_start dtb dtb_size bytes =
    allocate_n_frames-IsBitmap _ _ _
      (allocate_n_frames-IsBitmap _ _ _ (clear_loop-IsBitmap frame_bytes fs 0 bytes))
