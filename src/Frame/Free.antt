-- ===== src/Frame/Free.antt =====
-- The number of free frames in the bitmap of src/frame.c.
use fifth_kernel.Base.{
  ℕ, zero, suc, ◌+◌, ◌≤◌, ◌<◌, ◌≡◌, refl, arith, false, ◌||◌, ◌==◌, if◌then◌else◌, Bool-cases, inl,
  inr,
}
use fifth_kernel.Frame.{Frames}
use fifth_kernel.Frame.Bitmap.{allocated}

-- The free frames below `n`.
unfoldable pub free_frames : (n : ℕ) → Frames → ℕ
free_frames zero fs = 0
free_frames (suc n) fs = (if allocated fs n then 0 else 1) + free_frames n fs

-- A frame is free where the count says so.
pub free_frame :
    (n : ℕ) (fs : Frames) → 0 < free_frames n fs → (f : ℕ) × (f < n) × (allocated fs f ≡ false)
unfolding free_frames
free_frame zero fs h = absurd (omega arith)
free_frame (suc n) fs h = elim (Bool-cases (allocated fs n)) [
  | inl busy ↦
      let below = free_frame n fs (ground arith) in (below.0, omega (arith, below.1), below.2)
  | inr free ↦ (n, omega arith, free)
]

module _ (fs fs' : Frames) (f : ℕ)
    (marked : (m : ℕ) → allocated fs' m ≡ (m == f || allocated fs m)) where
  free_frames-above : (n : ℕ) → n ≤ f → free_frames n fs' ≡ free_frames n fs
  unfolding free_frames
  free_frames-above zero h = refl
  free_frames-above (suc n) h = ground (arith, marked n, free_frames-above n)

  pub free_frames-taken :
      (n : ℕ) → f < n → allocated fs f ≡ false → free_frames n fs' + 1 ≡ free_frames n fs
  unfolding free_frames
  free_frames-taken zero h free = absurd (omega arith)
  free_frames-taken (suc n) h free = elim (Bool-cases (n == f)) [
    | inl last ↦ ground (arith, marked n, free_frames-above n)
    | inr more ↦ ground (arith, marked n, free_frames-taken n)
  ]

-- Frames that are free count.
pub free_frames-ge :
    (a c : ℕ) (fs : Frames)
    → ((f : ℕ) → a ≤ f → f < a + c → allocated fs f ≡ false)
    → c ≤ free_frames (a + c) fs
unfolding free_frames
free_frames-ge a zero fs free = omega arith
free_frames-ge a (suc c) fs free =
    let next : a + suc c ≡ suc (a + c) = omega arith in
    rw (next, free (a + c) (omega arith) (omega arith))
      (omega (arith, free_frames-ge a c fs (λ f lo hi. free f lo (omega arith))))
