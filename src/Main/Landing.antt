-- ===== src/Main/Landing.antt =====
-- The jump of `kernel_init` (src/main.c) to `setup_post_relocation` in the higher half: what the code
-- there finds of the kernel's image.
use fifth_kernel.Base.{
  ℕ, ◌+◌, ◌-◌, ◌*◌, ◌/◌, ◌%◌, ◌^◌, ◌≤◌, ◌<◌, ◌≡◌, ap, ◌∙◌, arith, ◌⊎◌, inl, inr,
}
use fifth_kernel.Memory.{Memory, IsBytes}
use fifth_kernel.Machine.{Machine, u64}
use fifth_kernel.Machine.Returns.{Returns}
use fifth_kernel.Page.MapType
use fifth_kernel.Page.Boot.{kernel_start_page, kernel_end_page}
use fifth_kernel.Page.Beside.{IsBeside}
use fifth_kernel.Page.Maps.{high_page}
use fifth_kernel.Page.Through.{seen, satp_root, through, seen-page, translate}
use fifth_kernel.Privilege.{Jump}
use fifth_kernel.ElfFormat.{ehdr}
use fifth_kernel.Elf.Entries.{IsSmall}
use fifth_kernel.Fdt.Locations.{Option-cases}
use fifth_kernel.Main.{setup_post_relocation}
use fifth_kernel.Main.Placed.{placed, IsBootable}
use fifth_kernel.Main.Handover.{IsInRam}
use fifth_kernel.Main.Kernel.{IsSmall-shift}
use fifth_kernel.Main.Upper.{IsUpper, IsJumped, setup_post_relocation-IsUpper}
use fifth_kernel.Main.Tree.{Boots}

-- Where the kernel's byte at `a` is in the higher half.
abbrev pub higher : (kernel_start_ptr a : ℕ) → ℕ
higher kernel_start_ptr a = MapType.higher_half_addr_start + (a - kernel_start_ptr)

-- The kernel's image has the trap stack, `n` words of read-only data to relocate and, apart from
-- these, a test program whose tables are short enough for an `int`.
pub record IsImage (kernel_start_ptr kernel_end_ptr trap_stack rodata n program : ℕ) (m : Memory)
    : Type 0 where
  pub bytes : IsBytes m
  pub stack_from : kernel_start_ptr ≤ trap_stack
  pub stack_upto : trap_stack + 4096 ≤ kernel_end_ptr
  pub rodata_from : kernel_start_ptr ≤ rodata
  pub rodata_upto : rodata + 8 * n ≤ kernel_end_ptr
  pub program_from : kernel_start_ptr ≤ program
  pub program_upto : program + 64 ≤ kernel_end_ptr
  pub apart : (program + 64 ≤ rodata) ⊎ (rodata + 8 * n ≤ program)
  pub small : IsSmall (ehdr m program)

seen-IsBytes : (m : Memory) (root : ℕ) → IsBytes m → IsBytes (seen m root)
unfolding seen
seen-IsBytes m root bytes a = elim (Option-cases (translate m root a)) [
  | inl fault ↦ rw (fault, seen) (omega arith)
  | inr (at, found) ↦ rw (found, seen) (bytes at)
]

module _
    (kernel_start_ptr kernel_end_ptr naked_trap_handler trap_stack setup ram_frames rodata n
      program : ℕ)
    (before : Machine) (boot : IsBootable kernel_start_ptr kernel_end_ptr setup before)
    (ram : IsInRam kernel_start_ptr kernel_end_ptr ram_frames before)
    (image : IsImage kernel_start_ptr kernel_end_ptr trap_stack rodata n program before.memory)
    (j : Jump) (s' : Machine)
    (boots : Boots kernel_start_ptr kernel_end_ptr naked_trap_handler trap_stack setup before j
      s') where
  abbrev p : Machine
  p = placed kernel_start_ptr kernel_end_ptr before

  order : kernel_start_page p ≤ kernel_end_page p
  order = omega (arith, boot.from, boot.upto)

  size : kernel_end_ptr - kernel_start_ptr ≤ 2 ^ 32
  size = omega (arith, boot.layout.kernel_small, ram.frames.kernel_end)

  jumped : IsJumped p (through s')
  jumped = record {
    places = boots.handed.places;
    paged = boots.handed.paged;
    given = boots.handed.given;
    asked = boots.handed.mapped;
    starts = ap (λ z. z.kernel_start_addr) boots.handed.rest;
    ends = ap (λ z. z.kernel_end_addr) boots.handed.rest;
    layout = boot.layout;
    order = order;
    bytes = seen-IsBytes s'.memory (satp_root s') (boots.handed.bytes image.bytes);
  }

  higher-IsBeside :
      (a k : ℕ)
      → a + k ≤ kernel_end_ptr
      → kernel_start_ptr ≤ a
      → IsBeside (higher kernel_start_ptr a) k (through s')
  higher-IsBeside a k upto from =
      inl (omega (arith, size, ap (λ z. z.ident_map_addr) boots.handed.rest))

  -- A byte of the kernel is seen in the higher half as it was at the start.
  seen-higher :
      (a : ℕ)
      → kernel_start_ptr ≤ a
      → a < kernel_end_ptr
      → (through s').memory (higher kernel_start_ptr a) ≡ before.memory a
  seen-higher a from upto =
      let index : higher kernel_start_ptr a / 4096 % 2 ^ 27
          ≡ MapType.higher_half_vpn + (a / 4096 - kernel_start_page p) =
        omega (arith, size, boot.aligned) in
      let last : a / 4096 ≤ kernel_end_page p = omega (arith, ram.frames.kernel_end) in
      let found =
        boots.handed.looked (MapType.higher_half_vpn + (a / 4096 - kernel_start_page p))
          (omega (arith, boot.layout.kernel_low))
        ∙ high_page p boot.layout (a / 4096) (omega arith) last in
      let address : a / 4096 * 4096 + higher kernel_start_ptr a % 4096 ≡ a =
        omega (arith, boot.aligned) in
      seen-page s'.memory (satp_root s') (higher kernel_start_ptr a) (a / 4096) (rw index found)
        (omega (arith, ram.frames.kernel_end))
      ∙ ap s'.memory address
      ∙ boots.untouched a (inl (from, upto))

  program-IsSmall : IsSmall (ehdr (through s').memory (higher kernel_start_ptr program))
  program-IsSmall =
      IsSmall-shift before.memory (through s').memory program (higher kernel_start_ptr program)
        (λ i lt.
          let next : higher kernel_start_ptr program + i ≡ higher kernel_start_ptr (program + i) =
            omega (arith, image.program_from) in
          rw next (
            seen-higher (program + i) (omega (arith, image.program_from))
              (omega (arith, image.program_upto))))
        image.small

  pub arrives :
      (last : ℕ)
      → Returns
          (λ _ s2. IsUpper p j.a0 (through s') s2)
          (setup_post_relocation j.a0
            (higher kernel_start_ptr rodata)
            (higher kernel_start_ptr rodata + 8 * n)
            (higher kernel_start_ptr program)
            last
            (through s'))
  arrives last =
      setup_post_relocation-IsUpper p (through s') jumped j.a0 (higher kernel_start_ptr rodata) n
        (higher kernel_start_ptr program)
        (higher-IsBeside rodata (8 * n) image.rodata_upto image.rodata_from)
        (higher-IsBeside program 64 image.program_upto image.program_from) (apart image.apart)
        program-IsSmall last (omega (arith, size, image.rodata_upto, image.rodata_from))
    where
      apart :
          (program + 64 ≤ rodata) ⊎ (rodata + 8 * n ≤ program)
          → (higher kernel_start_ptr program + 64 ≤ higher kernel_start_ptr rodata)
            ⊎ (higher kernel_start_ptr rodata + 8 * n ≤ higher kernel_start_ptr program)
      apart (inl h) = inl (omega (arith, image.program_from))
      apart (inr h) = inr (omega (arith, image.rodata_from))

  -- The top of the trap stack in the higher half.
  abbrev pub stack_top : ℕ
  stack_top = higher kernel_start_ptr (trap_stack + 4096)

  pub stack_top-sscratch : u64 (s'.csr.sscratch + j.a0) ≡ stack_top
  stack_top-sscratch = omega (
    arith, boots.sscratch, boots.up.argument, image.stack_from, image.stack_upto,
    ram.frames.kernel_end, size,
  )
