-- ===== src/Frame/Lowest.antt =====
-- Frames are taken from the bitmap of src/frame.c from the lowest free one on, and which frames that
-- leaves free.
use fifth_kernel.Base.{
  ℕ, zero, suc, ◌+◌, ◌≤◌, ◌<◌, ◌≡◌, arith, true, ◌||◌, ◌==◌, ◌⊎◌, inl, inr, Bool-cases, ==→eq,
}
use fifth_kernel.Frame.{Frames}
use fifth_kernel.Frame.Bitmap.{allocated}
use fifth_kernel.Frame.Free.{free_frames, free_frame}

-- No frame comes free.
abbrev pub Held : (fs fs' : Frames) → Type 0
Held fs fs' = (f : ℕ) → allocated fs f ≡ true → allocated fs' f ≡ true

-- Below a frame that was taken every frame is allocated.
abbrev pub Filled : (fs fs' : Frames) → Type 0
Filled fs fs' =
    (f : ℕ)
    → allocated fs' f ≡ true
    → (allocated fs f ≡ true) ⊎ ((g : ℕ) → g < f → allocated fs' g ≡ true)

pub Filled-refl : (fs : Frames) → Filled fs fs
Filled-refl fs f h = inl h

pub Filled-trans : (a b c : Frames) → Filled a b → Held b c → Filled b c → Filled a c
Filled-trans a b c first held then_filled f h = elim (then_filled f h) [
  | inr below ↦ inr below
  | inl old ↦ elim (first f old) [
    | inl older ↦ inl older
    | inr below ↦ inr (λ g lt. held g (below g lt))
  ]
]

pub Filled-taken :
    (fs fs' : Frames) (f : ℕ)
    → ((g : ℕ) → g < f → allocated fs g ≡ true)
    → ((m : ℕ) → allocated fs' m ≡ (m == f || allocated fs m))
    → Filled fs fs'
Filled-taken fs fs' f lowest marked m h = elim (Bool-cases (m == f)) [
  | inl same ↦ inr (λ g lt. ground (arith, marked g, lowest g (rw (← ==→eq m f same) lt)))
  | inr other ↦ inl (ground (arith, marked m, h))
]

-- Below a bound no more frames were taken than below a larger one.
free_frames-prefix :
    (n k : ℕ) (fs fs' : Frames)
    → Held fs fs'
    → free_frames n fs + free_frames (n + k) fs' ≤ free_frames n fs' + free_frames (n + k) fs
unfolding free_frames
free_frames-prefix n zero fs fs' held = let same : n + 0 ≡ n = omega arith in rw same (omega arith)
free_frames-prefix n (suc k) fs fs' held =
    let next : n + suc k ≡ suc (n + k) = omega arith in
    rw next (ground (arith, held (n + k), free_frames-prefix n k fs fs' held))

-- While fewer frames were taken than were free below the bound, each one that was taken lies below
-- the bound.
pub taken-below :
    (n k taken : ℕ) (fs fs' : Frames)
    → Held fs fs'
    → Filled fs fs'
    → free_frames (n + k) fs ≤ free_frames (n + k) fs' + taken
    → taken < free_frames n fs
    → (f : ℕ) → allocated fs' f ≡ true
    → (allocated fs f ≡ true) ⊎ (f < n)
taken-below n k taken fs fs' held filled count enough f h =
    let (g, small, free) = free_frame n fs' (omega (arith, free_frames-prefix n k fs fs' held)) in
    elim (filled f h) [ inl old ↦ inl old | inr below ↦ inr (ground (arith, below g, free)) ]
