-- ===== src/Frame/Search.antt =====
-- `first_free_frame` and `allocate_first_frame` of src/frame.c.
use fifth_kernel.Frame.FindByte.{
  FoundBit, find_bit_lem, FoundByte, find_byte_lem, full_byte, not_full_of_free,
}
use fifth_kernel.Base.{
  ℕ, zero, suc, ◌+◌, ◌*◌, ◌/◌, ◌%◌, ◌≤◌, ◌<◌, ◌≡◌, refl, arith, true, false, ◌||◌, none, some, ◌==◌,
  all_below_lem, Bool-cases, inl, inr, ==→eq, not_==→ne,
}
use native.Mathlib.Decide.{dec_lt}
use fifth_kernel.Frame.{
  Frames, frame_bytes, frame_count, bit_set, find_byte, find_bit, find_bit_in, first_free_frame,
  allocate_frame, allocate_first_frame,
}
use fifth_kernel.Frame.Bitmap.{
  IsBitmap, allocated, allocated_bit, allocate_frame_lem, allocate_frame-IsBitmap,
}

-- What a search reports: the frame is free, and every frame below it is allocated.
pub record IsLowestFree (fs : Frames) (n : ℕ) : Type 0 where
  pub free : allocated fs n ≡ false
  pub lowest : (x : ℕ) → x < n → allocated fs x ≡ true

found_IsLowestFree :
    (fs : Frames) (left k : ℕ) (b : FoundByte fs left 0 k)
    → (c : FoundBit (fs b.at)) → IsLowestFree fs (b.at * 8 + c.at)
found_IsLowestFree fs left k b c = record {
  free =
      let q : (b.at * 8 + c.at) / 8 ≡ b.at = omega (arith, c.small) in
      let r : (b.at * 8 + c.at) % 8 ≡ c.at = omega (arith, c.small) in
      rw (allocated_bit, q, r) c.clear;
  lowest = λ x h. elim (dec_lt (x / 8) b.at) [
    | yes p ↦
        rw allocated_bit
          (full_byte (fs (x / 8)) (x % 8) (b.below (x / 8) (omega arith) p) (omega arith))
    | no p ↦
        let e : x / 8 ≡ b.at = omega arith in
        rw (allocated_bit, e) (all_below_lem c.at (bit_set (fs b.at)) (x % 8) c.below (omega arith))
  ];
}

first_free_frame_found :
    (fs : Frames) (i j : ℕ)
    → find_byte frame_bytes fs 0 ≡ some i
    → find_bit 9 (fs i) 0 ≡ some j
    → first_free_frame fs ≡ some (i * 8 + j)
unfolding first_free_frame find_bit_in
first_free_frame_found fs i j p q = ground arith

-- While a frame of the bitmap is free, the search returns the lowest free frame.
pub first_free_frame_lem :
    (fs : Frames) (n : ℕ)
    → IsBitmap fs
    → n < frame_count
    → allocated fs n ≡ false
    → (r : ℕ) × (first_free_frame fs ≡ some r) × (r ≤ n) × IsLowestFree fs r
first_free_frame_lem fs n bytes h free = found (
    find_byte_lem frame_bytes fs 0 (n / 8) (omega arith) (omega arith) (not_full_of_free fs n free))
  where
    at_most : (r : ℕ) → IsLowestFree fs r → r ≤ n
    at_most r is = elim (dec_lt n r) [ yes p ↦ ground (arith, is.lowest n p) | no p ↦ omega arith ]

    found :
        FoundByte fs frame_bytes 0 (n / 8)
        → (r : ℕ) × (first_free_frame fs ≡ some r) × (r ≤ n) × IsLowestFree fs r
    found b =
        let c : FoundBit (fs b.at) = find_bit_lem (fs b.at) (bytes b.at) b.open_byte in
        let is : IsLowestFree fs (b.at * 8 + c.at) =
          found_IsLowestFree fs frame_bytes (n / 8) b c in
        (
          b.at * 8 + c.at,
          first_free_frame_found fs b.at c.at b.found c.found,
          at_most (b.at * 8 + c.at) is,
          is,
        )

-- While a frame of the bitmap is free, `allocate_first_frame` returns the lowest free frame, which
-- lies in the bitmap, and marks it; no other frame changes its state.
pub allocate_first_frame_lem :
    (fs : Frames) (n : ℕ)
    → IsBitmap fs
    → n < frame_count
    → allocated fs n ≡ false
    → (r : ℕ) × (fs' : Frames) × (allocate_first_frame fs ≡ some (fs', r))
      × (r < frame_count)
      × IsLowestFree fs r
      × IsBitmap fs'
      × ((m : ℕ) → allocated fs' m ≡ (m == r || allocated fs m))
allocate_first_frame_lem fs n bytes h free = done (first_free_frame_lem fs n bytes h free)
  where
    done :
        (r : ℕ) × (first_free_frame fs ≡ some r) × (r ≤ n) × IsLowestFree fs r
        → (r : ℕ) × (fs' : Frames) × (allocate_first_frame fs ≡ some (fs', r))
          × (r < frame_count)
          × IsLowestFree fs r
          × IsBitmap fs'
          × ((m : ℕ) → allocated fs' m ≡ (m == r || allocated fs m))
    done (r, found, le, is) = (
      r,
      (allocate_frame fs r).0,
      unfold allocate_first_frame in ground (arith, allocate_frame_lem fs r 0 bytes),
      omega arith,
      is,
      allocate_frame-IsBitmap fs r bytes,
      λ m. ground (arith, allocate_frame_lem fs r m bytes),
    )

-- All eight bits of a byte that is not full cannot be set.
full_of_allocated :
    (fs : Frames) (i : ℕ)
    → IsBitmap fs
    → ((x : ℕ) → x < frame_count → allocated fs x ≡ true)
    → i < frame_bytes
    → fs i ≡ 255
full_of_allocated fs i bytes all h = elim (Bool-cases (fs i == 255)) [
  | inl full ↦ ==→eq (fs i) 255 full
  | inr room ↦ clash (find_bit_lem (fs i) (bytes i) (not_==→ne (fs i) 255 room))
]
  where
    clash : FoundBit (fs i) → fs i ≡ 255
    clash c =
        let q : (i * 8 + c.at) / 8 ≡ i = omega (arith, c.small) in
        let r : (i * 8 + c.at) % 8 ≡ c.at = omega (arith, c.small) in
        let busy : bit_set (fs i) c.at ≡ true =
          rw (allocated_bit, q, r) at (all (i * 8 + c.at) (omega (arith, c.small))) in
        ground (arith, busy, c.clear)

find_byte_full :
    (left : ℕ) (fs : Frames) (i : ℕ)
    → ((x : ℕ) → i ≤ x → x < i + left → fs x ≡ 255)
    → find_byte left fs i ≡ none
unfolding find_byte
find_byte_full zero fs i full = refl
find_byte_full (suc left) fs i full =
    rw (full i (omega arith) (omega arith))
      (find_byte_full left fs (i + 1) (λ x p q. full x (omega arith) (omega arith)))

-- When every frame of the bitmap is allocated, the search reads past the end of the array.
pub first_free_frame_exhausted :
    (fs : Frames)
    → IsBitmap fs
    → ((x : ℕ) → x < frame_count → allocated fs x ≡ true)
    → first_free_frame fs ≡ none
unfolding first_free_frame
first_free_frame_exhausted fs bytes all = ground (
  arith,
  find_byte_full frame_bytes fs 0 (λ x p q. full_of_allocated fs x bytes all (omega arith)),
)
