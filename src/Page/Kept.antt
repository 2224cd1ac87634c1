-- ===== src/Page/Kept.antt =====
-- What the functions of src/page.c keep of a page table when they only add tables to it.
use fifth_kernel.Memory.{IsBytes}
use fifth_kernel.Frame.Lowest.{Filled, Filled-refl}
use fifth_kernel.Page.Footprint.{Spares, Spares-refl}
use fifth_kernel.Base.{ℕ, ◌^◌, ◌<◌, ◌≡◌, ◌≢◌, refl, ap, arith, true, inr, ℤ}
use fifth_kernel.Frame.Bitmap.{allocated}
use fifth_kernel.Machine.{Machine}
use fifth_kernel.Page.Err
use fifth_kernel.Page.Tree.{Places}
use fifth_kernel.Page.Paged.{IsPaged, space, with_pages, Refines}

-- On the way down: the table is still well formed, and the address space is what it was.
pub record Kept (root : ℕ) (s s' : Machine) : Type 0 where
  pub places : Places
  pub paged : IsPaged places root s'
  pub same : (v : ℕ) → v < 2 ^ 27 → space root s' v ≡ space root s v
  pub rest : s' ≡ with_pages s s'.frames s'.memory
  pub held : (f : ℕ) → allocated s.frames f ≡ true → allocated s'.frames f ≡ true
  pub filled : Filled s.frames s'.frames
  pub bytes : IsBytes s.memory → IsBytes s'.memory
  pub spares : Spares root s s'

pub Kept-refl : {places : Places} {root : ℕ} (s : Machine) → IsPaged places root s → Kept root s s
Kept-refl {places} {root} s paged = record {
  places = places;
  paged = paged;
  same = λ v p. refl;
  rest = refl;
  held = λ f p. p;
  filled = Filled-refl s.frames;
  bytes = λ h. h;
  spares = Spares-refl root s;
}

-- A call that reports an error and kept the address space refines an operation that does the same.
pub Kept-Refines :
    {root : ℕ} {s s' : Machine}
    → Kept root s s'
    → s' ≡ s
    → (code : ℤ) → code ≢ Err.success
    → Refines root s (code, space root s) code s'
Kept-Refines {s} {s'} kept same code failed = record {
  places = kept.places;
  paged = kept.paged;
  result = refl;
  mapped = kept.same;
  flushed = inr (failed, ap (λ z. z.flushes) kept.rest);
  rest =
      ap {A = Machine} {B = Machine}
        (λ z. record z { frames = s'.frames; memory = s'.memory; flushes = s'.flushes }) kept.rest;
  refused = λ _. same;
  frames_left = rw same (omega arith);
  held = kept.held;
  filled = kept.filled;
  bytes = kept.bytes;
  spares = kept.spares;
}
