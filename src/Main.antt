-- ===== src/Main.antt =====
-- src/main.c: from the first C function, in machine mode, into `kernel_init`, and the kernel's loop.
-- Addresses of the linker script are parameters.
pub mod Boot
pub mod Placed
pub mod Init
pub mod Preserved
pub mod Handover
pub mod Tree
pub mod Kernel
pub mod Upper
pub mod Landing
pub mod Arrival
pub mod Rodata
use fifth_kernel.Base.{
  ℕ, zero, suc, ◌+◌, ◌-◌, ◌*◌, ◌/◌, ◌%◌, ◌^◌, bit_and, Bool, ◌&&◌, not, ltb, leb, ◌==◌,
  if◌then◌else◌, List, [], ◌∷◌,
}
use fifth_kernel.Memory.{Memory, load, store}
use fifth_kernel.Mem.{page_of}
use fifth_kernel.Frame.{frame_bytes, pages, allocate_n_frames, clear_loop, sub_size}
use fifth_kernel.Machine.{
  Machine, done, out_of_fuel, Cmd, pure, and_then, ◌>>=◌, ◌>>◌, get, modify, printf, u64,
}
use fifth_kernel.Page.MapType
use fifth_kernel.Page.Boot.{ignore, enable_paging, unmap_lower_half_kernel}
use fifth_kernel.Trap.{init_traps, enable_interrupts}
use fifth_kernel.Fdt.{Outside}
use fifth_kernel.Fdt.Parse.{print_fdt_info}
use fifth_kernel.Elf.{load_elf}
use fifth_kernel.Privilege.{Jump, set_priv_m}

-- The condition of the loop of `modify_rodata_ptrs` at one word.
abbrev pub is_kernel_pointer : (kernel_start ram_end : ℕ) → (value : ℕ) → Bool
is_kernel_pointer kernel_start ram_end value = leb kernel_start value && ltb value ram_end

abbrev pub ram_end : Machine → ℕ
ram_end s = u64 (s.device.ram_start + s.device.ram_size)

-- The loop from the word at `ptr_ptr` on.
unfoldable pub modify_loop : (fuel ptr_ptr rodata_middle : ℕ) → Cmd (Unit {0})
modify_loop zero ptr_ptr rodata_middle s = out_of_fuel
modify_loop (suc fuel) ptr_ptr rodata_middle s =
    let value = load 8 s.memory ptr_ptr in
    let rest = modify_loop fuel (u64 (ptr_ptr + 8)) rodata_middle in
    if is_kernel_pointer s.kernel_start_addr (ram_end s) value && not (ptr_ptr == rodata_middle)
    then rest (record s {
      memory =
          store 8 s.memory ptr_ptr
            (u64 (value + MapType.higher_half_addr_start + 2 ^ 64 - s.kernel_start_addr));
    })
    else done tt s

-- One round for each word of the section, and one that ends the loop.
abbrev pub modify_rodata_ptrs : (rodata_start rodata_middle : ℕ) → Cmd (Unit {0})
modify_rodata_ptrs rodata_start rodata_middle =
    modify_loop ((rodata_middle - rodata_start) / 8 + 1) rodata_start rodata_middle

-- `allocate_n_frames` of src/frame.c, with its report.
unfoldable pub report_n_frames : (start count : ℕ) → Cmd (Unit {0})
report_n_frames start count = do
  printf "Allocating frames %#zx-%#zx\n" (start ∷ u64 (start + count + 2 ^ 64 - 1) ∷ [])
  modify λ s. record s { frames = allocate_n_frames s.frames start count }

-- `init_frames` of src/frame.c, with the addresses that it sets and the reports.
unfoldable pub boot_frames : (kernel_start_ptr kernel_end_ptr : ℕ) → Cmd (Unit {0})
boot_frames kernel_start_ptr kernel_end_ptr = do
  modify λ s. record s {
    kernel_start_addr = kernel_start_ptr;
    kernel_end_addr = kernel_end_ptr;
    frames = clear_loop frame_bytes s.frames 0;
  }
  s ← get
  report_n_frames (page_of (sub_size s.kernel_start_addr s.device.ram_start))
      (pages (sub_size s.kernel_end_addr s.kernel_start_addr))
  report_n_frames (page_of (sub_size s.device.dtb s.device.ram_start)) (pages s.device.dtb_size)

-- `kernel_init`, up to the jump to `setup_post_relocation` in the higher half; `out` and `fuel` are
-- those of the device tree's walk, and `add` of src/asm/add.S is the sum.
unfoldable pub kernel_init :
    Outside
    → (fuel kernel_start_ptr kernel_end_ptr naked_trap_handler trap_stack setup_post_relocation
        dtb : ℕ)
    → Cmd Jump
kernel_init out fuel kernel_start_ptr kernel_end_ptr naked_trap_handler trap_stack
      setup_post_relocation dtb =
    do
      printf "%zd" ((4 + 5) ∷ [])
      printf "Hello, rv64!\n" []
      ignore (print_fdt_info out fuel dtb)
      boot_frames kernel_start_ptr kernel_end_ptr
      enable_paging
      init_traps naked_trap_handler trap_stack
      enable_interrupts
      s ← get
      printf "RAM START: %#zx\n" (s.device.ram_start ∷ [])
      printf "RAM SIZE:  %#zx (%zu MiB)\n"
          (s.device.ram_size ∷ (s.device.ram_size / 1024 / 1024) ∷ [])
      let up = u64 (MapType.higher_half_addr_start + 2 ^ 64 - s.kernel_start_addr)
      pure (record { pc = u64 (setup_post_relocation + up); a0 = up })

-- A round of the loop of `kernel_main`; `wfi` and `ecall` are traps that give everything back.
unfoldable pub main_round : (counter2 : ℕ) → Cmd ℕ
main_round counter2 = do
  s ← get
  printf "counter: %zd (%zd)\r" (s.counter ∷ counter2 ∷ [])
  pure (u64 (counter2 + 1))

-- `kernel_main` up to its loop.
unfoldable pub kernel_main : (test_program_start test_program_end : ℕ) → Cmd (Unit {0})
kernel_main test_program_start test_program_end = do
  modify λ s. record s { counter = 69 }
  unmap_lower_half_kernel
  printf "test_program_start: %#zx\n" (test_program_start ∷ [])
  printf "test_program_end: %#zx\n" (test_program_end ∷ [])
  load_elf test_program_start >>= λ _. pure tt

-- The first three instructions of `setup_post_relocation` (src/asm/post_relocation.S), which move
-- the top of the trap stack to the higher half.
abbrev pub relocate_sscratch : (relocation_addr_diff : ℕ) → Cmd (Unit {0})
relocate_sscratch relocation_addr_diff =
    modify λ s. record s {
      csr = record s.csr { sscratch = u64 (s.csr.sscratch + relocation_addr_diff) };
    }

-- `setup_post_relocation` but for the general registers, up to the loop of `kernel_main`.
unfoldable pub setup_post_relocation :
    (relocation_addr_diff rodata_start rodata_middle test_program_start test_program_end : ℕ)
    → Cmd (Unit {0})
setup_post_relocation relocation_addr_diff rodata_start rodata_middle test_program_start
      test_program_end =
    do
      relocate_sscratch relocation_addr_diff
      modify_rodata_ptrs rodata_start rodata_middle
      kernel_main test_program_start test_program_end

-- The loop over the extensions, with `left` rounds to go.
unfoldable pub print_extensions : (left i misa : ℕ) → Cmd (Unit {0})
print_extensions zero i misa = pure tt
print_extensions (suc left) i misa =
    (if bit_and misa (2 ^ i) == 0 then pure tt else printf "%c" ((0x41 + i) ∷ []))
    >> print_extensions left (i + 1) misa

unfoldable pub print_misa : (misa : ℕ) → Cmd (Unit {0})
print_misa misa =
    if misa == 0
    then printf "misa is empty\n" []
    else (printf "Supported extensions: " [] >> print_extensions 26 0 misa >> printf "\n" [])

unfoldable pub kernel_start : (kernel_init dtb : ℕ) → Cmd Jump
kernel_start kernel_init dtb = do
  s ← get
  print_misa s.csr.misa
  modify λ s. record s { csr = record s.csr { mideleg = 0xFFFF; medeleg = 0xFFFF } }
  set_priv_m 1 kernel_init dtb
