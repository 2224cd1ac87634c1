-- ===== src/Tests/Values.antt =====
-- The machines of the tests: memory of zeros with one page table, in frame 0.
use fifth_kernel.Base.{
  ℕ, zero, suc, ◌+◌, ◌*◌, ◌^◌, ◌≤◌, ◌≡◌, refl, sym, ◌∙◌, arith, true, false, none, some, ◌==◌,
  if◌then◌else◌, [], ==→eq, Bool-cases, inl, inr,
}
use fifth_kernel.Memory.{Memory, IsBytes}
use fifth_kernel.Frame.{Frames, bit_set}
use fifth_kernel.Frame.Bitmap.{IsBitmap, allocated}
use fifth_kernel.Frame.Free.{free_frames}
use fifth_kernel.Machine.{Machine, Csr}
use fifth_kernel.Page.Entry.{decode, load_pte, load_pte-zero}
use fifth_kernel.Page.Tree.{Place, place, Places, is_link, IsRange, IsTree}
use fifth_kernel.Page.Paged.{IsPaged, available}

abbrev pub no_csr : Csr
no_csr = record {
  misa = 0;
  mstatus = 0;
  mepc = 0;
  mideleg = 0;
  medeleg = 0;
  pmpaddr0 = 0;
  pmpcfg0 = 0;
  satp = 0;
  scause = 0;
  sepc = 0;
  stvec = 0;
  sscratch = 0;
  sstatus = 0;
  sie = 0;
}

abbrev pub ram : ℕ
ram = 0x80000000

-- Frame 0 is taken.
abbrev pub one_frame : Frames
one_frame x = if x == 0 then 1 else 0

abbrev pub zeros : Memory
zeros a = 0

abbrev pub machine : Csr → Memory → Machine
machine csr memory = record {
  memory = memory;
  frames = one_frame;
  device = record {
    ram_start = ram;
    ram_size = 2 ^ 27;
    dtb = 0;
    dtb_size = 0;
    mapped_locations = [];
  };
  kernel_start_addr = ram;
  kernel_end_addr = ram + 4096;
  ident_map_addr = 0;
  counter = 0;
  csr = csr;
  console = [];
  flushes = 0;
}

abbrev pub paged : Machine
paged = machine no_csr zeros

pub zeros-IsBytes : IsBytes zeros
zeros-IsBytes a = omega arith

pub one_frame-IsBitmap : IsBitmap one_frame
one_frame-IsBitmap x = ground arith

pub frame_1-free : allocated one_frame 1 ≡ false
unfolding allocated bit_set
frame_1-free = refl

pub paged-IsRange : IsRange ram 0
paged-IsRange = record {
  ram_aligned = refl;
  ident_aligned = refl;
  no_wrap = omega arith;
  fits = omega arith;
}

-- The root table alone.
abbrev pub places : Places
places t = if t == ram then some (place 2 0) else none

placed-root : (t : ℕ) (p : Place) → places t ≡ some p → t ≡ ram
placed-root t p h = elim (Bool-cases (t == ram)) [
  | inl same ↦ ==→eq t ram same
  | inr other ↦ absurd (none_not_some (sym (rw other) ∙ h))
]
  where
    none_not_some : {A : Type 0} {a : A} → ¬ (none ≡ some a)
    none_not_some e = ground (arith, e)

frame_0-taken : allocated one_frame 0 ≡ true
unfolding allocated bit_set
frame_0-taken = refl

no_link : (t : ℕ) → is_link (load_pte zeros t) ≡ false
unfolding decode
no_link t = rw (load_pte-zero zeros t (λ _ _ _. refl))

pub paged-IsTree : IsTree places ram zeros one_frame ram 0
paged-IsTree = record {
  root_placed = refl;
  framed = λ t p h. record {
    frame = 0;
    in_bitmap = omega arith;
    taken = frame_0-taken;
    here = placed-root t p h;
  };
  linked = λ t l q i h small link. absurd (ground (arith, no_link (t + 8 * i)));
}

pub paged-IsPaged : IsPaged places ram paged
paged-IsPaged = record { tree = paged-IsTree; bitmap = one_frame-IsBitmap; range = paged-IsRange }

pub free_frames-le : (left n : ℕ) (fs : Frames) → free_frames n fs ≤ free_frames (left + n) fs
unfolding free_frames
free_frames-le zero n fs = let same : 0 + n ≡ n = omega arith in rw same (omega arith)
free_frames-le (suc left) n fs =
    let next : suc left + n ≡ suc (left + n) = omega arith in
    rw next (omega (arith, free_frames-le left n fs))

first_free : free_frames 11 one_frame ≡ 10
unfolding free_frames allocated bit_set
first_free = refl

pub paged-spare : 10 ≤ available paged
paged-spare = rw first_free at (free_frames-le 262133 11 one_frame)

pub paged-available : 2 ≤ available paged
paged-available = omega (arith, paged-spare)
