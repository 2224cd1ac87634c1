-- ===== src/Main/Kernel.antt =====
-- `kernel_main` of src/main.c up to its loop: the end of the lower half's kernel, and the report of
-- the test program.
use mathlib.Core.Path.{subst}
use fifth_kernel.Base.{
  ℕ, ◌+◌, ◌^◌, ◌≤◌, ◌<◌, ◌≡◌, ◌≢◌, refl, sym, ap, ◌∙◌, arith, inl, inr, [], ◌∷◌, List,
}
use fifth_kernel.Memory.{Memory, IsBytes, load}
use fifth_kernel.Memory.Words.{load_shift}
use fifth_kernel.Machine.{Machine, Printed}
use fifth_kernel.Machine.Returns.{Returns, returns, bind}
use fifth_kernel.Machine.Prints.{OnlyPrints, OnlyPrints-trans, printed}
use fifth_kernel.Page.Boot.{kernel_start_page, kernel_end_page}
use fifth_kernel.Page.Tree.{Places}
use fifth_kernel.Page.Beside.{IsBeside, IsBeside-Outside}
use fifth_kernel.Page.Paged.{IsPaged}
use fifth_kernel.Page.FirstPage.{current}
use fifth_kernel.Page.LowerHalf.{IsCleared, unmap_lower_half_kernel-IsCleared}
use fifth_kernel.ElfFormat.{ehdr}
use fifth_kernel.Elf.Entries.{IsSmall}
use fifth_kernel.Elf.Load.{load_elf-Nulls}
use fifth_kernel.Main.{kernel_main}

-- The lengths of the tables are in the header's 64 bytes.
pub IsSmall-shift :
    (m m' : Memory) (p p' : ℕ)
    → ((j : ℕ) → j < 64 → m' (p' + j) ≡ m (p + j))
    → IsSmall (ehdr m p)
    → IsSmall (ehdr m' p')
IsSmall-shift m m' p p' same small = record {
  sections = rw (field 58 2 (omega arith), field 60 2 (omega arith)) small.sections;
  segments = rw (field 54 2 (omega arith), field 56 2 (omega arith)) small.segments;
}
  where
    field : (offset n : ℕ) → offset + n ≤ 64 → load n m' (p' + offset) ≡ load n m (p + offset)
    field offset n h = load_shift n m' m (p' + offset) (p + offset) (λ j lt.
        let left : p' + offset + j ≡ p' + (offset + j) = omega arith in
        let right : p + offset + j ≡ p + (offset + j) = omega arith in
        rw (left, right) (same (offset + j) (omega arith)))

pub IsSmall-same :
    (m m' : Memory) (p : ℕ)
    → ((x : ℕ) → p ≤ x → x < p + 64 → m' x ≡ m x)
    → IsSmall (ehdr m p)
    → IsSmall (ehdr m' p)
IsSmall-same m m' p same small =
    IsSmall-shift m m' p p (λ j lt. same (p + j) (omega arith) (omega arith)) small

-- The pages from `first` to before `past` were cleared, the counter was set, and nothing else but
-- the console changed.
pub record IsRunning (root first past : ℕ) (s s' : Machine) : Type 0 where
  pub counter : s'.counter ≡ 69
  pub cleared :
      IsCleared root first past (record s { counter = 69 }) (record s' { console = s.console })

-- `kernel_main` up to its loop, in a well-formed table that `satp` names, with the kernel's pages
-- among those that exist, where the header of the test program lies beside the frames and its
-- tables are short enough for an `int`, returns: the tick counter is 69, the pages of the lower
-- half's kernel are cleared as `unmap_lower_half_kernel` does, and nothing else but the console has
-- changed.
pub kernel_main-IsRunning :
    (start end : ℕ) (s : Machine) (places : Places)
    → IsPaged places (current s) s
    → current s ≢ 0
    → kernel_start_page s ≤ kernel_end_page s
    → kernel_end_page s < 2 ^ 27
    → IsBytes s.memory
    → IsBeside start 64 s
    → IsSmall (ehdr s.memory start)
    → Returns
        (λ _ s'. IsRunning (current s) (kernel_start_page s) (kernel_end_page s + 1) s s')
        (kernel_main start end s)
unfolding kernel_main
kernel_main-IsRunning start end s places paged given order low bytes beside small =
    bind (unmap_lower_half_kernel-IsCleared s0 places paged0 given order low) (λ _ s1 cleared.
      let s2 = printed "test_program_start: %#zx\n" (start ∷ []) s1 in
      let s3 = printed "test_program_end: %#zx\n" (end ∷ []) s2 in
      bind
        (load_elf-Nulls start s3 (cleared.bytes bytes) (
          IsSmall-same s.memory s1.memory start
            (λ x lo hi.
              (cleared.spares x (IsBeside-Outside s0 paged0 start 64 (in_s0 beside) x lo hi)).1)
            small))
        (λ _ s4 q. returns (report s1 s4 cleared (OnlyPrints-trans s1 s3 s4 (_, refl) q.1))))
  where
    s0 : Machine
    s0 = record s { counter = 69 }

    in_s0 : IsBeside start 64 s → IsBeside start 64 s0
    in_s0 (inl h) = inl h
    in_s0 (inr h) = inr h

    paged0 : IsPaged places (current s) s0
    paged0 = record { tree = paged.tree; bitmap = paged.bitmap; range = paged.range }

    report :
        (s1 s4 : Machine)
        → IsCleared (current s) (kernel_start_page s) (kernel_end_page s + 1) s0 s1
        → OnlyPrints s1 s4
        → IsRunning (current s) (kernel_start_page s) (kernel_end_page s + 1) s s4
    report s1 s4 cleared (c, e) =
        let first : s1.console ≡ s.console = ap (λ z. z.console) cleared.rest in
        let same : s1 ≡ record s4 { console = s.console } =
          ap {A = List Printed} {B = Machine} (λ c. record s1 { console = c }) first
          ∙ sym (ap {A = Machine} {B = Machine} (λ z. record z { console = s.console }) e) in
        record {
          counter = ap (λ z. z.counter) e ∙ ap (λ z. z.counter) cleared.rest;
          cleared =
              subst (IsCleared (current s) (kernel_start_page s) (kernel_end_page s + 1) s0) same
                cleared;
        }
