-- ===== src/Main/Preserved.antt =====
-- What `kernel_init` of src/main.c leaves as it was: the kernel's image and the device tree.
use fifth_kernel.Base.{
  ℕ, ◌+◌, ◌-◌, ◌/◌, ◌%◌, ◌≤◌, ◌<◌, ◌≡◌, arith, ◌==◌, ◌⊎◌, inl, inr, ℤ, Bool-cases, ==→eq, not_==→ne,
  ◌≢◌,
}
use fifth_kernel.Frame.{Frames, init_frames}
use fifth_kernel.Frame.Bitmap.{IsBitmap}
use fifth_kernel.Frame.Range.{IsLayout, init_frames_covers}
use fifth_kernel.Machine.{Machine, done}
use fifth_kernel.Machine.Returns.{Returns, mono}
use fifth_kernel.Page.Tree.{frame_addr}
use fifth_kernel.Page.Footprint.{Apart, OutsideFree, no_link}
use fifth_kernel.Fdt.{Outside}
use fifth_kernel.Fdt.Parse.{print_fdt_info}
use fifth_kernel.Main.{kernel_init}
use fifth_kernel.Main.Placed.{greeted, IsBootable}
use fifth_kernel.Main.Init.{kernel_init-IsUp}

-- The byte at `a` lies in the kernel's image or in the device tree.
abbrev pub IsBootByte : (kernel_start_addr kernel_end_addr dtb dtb_size a : ℕ) → Type 0
IsBootByte kernel_start_addr kernel_end_addr dtb dtb_size a =
    ((kernel_start_addr ≤ a) × (a < kernel_end_addr)) ⊎ ((dtb ≤ a) × (a < dtb + dtb_size))

other_frame :
    (ram_start a f : ℕ)
    → ram_start ≤ a
    → (a - ram_start) / 4096 ≢ f
    → Apart (frame_addr ram_start 0 f) a
other_frame ram_start a f above ne = ground arith

module _ (fs : Frames) (kernel_start_addr kernel_end_addr ram_start dtb dtb_size : ℕ)
    (bytes : IsBitmap fs)
    (layout : IsLayout kernel_start_addr kernel_end_addr ram_start dtb dtb_size)
    (kernel_aligned : (kernel_start_addr - ram_start) % 4096 ≡ 0)
    (dtb_aligned : (dtb - ram_start) % 4096 ≡ 0) where
  -- No free frame holds a byte of the kernel or of the device tree.
  boot_byte-OutsideFree :
      (a : ℕ)
      → IsBootByte kernel_start_addr kernel_end_addr dtb dtb_size a
      → OutsideFree
          (init_frames fs kernel_start_addr kernel_end_addr ram_start dtb dtb_size)
          ram_start
          0
          a
  boot_byte-OutsideFree a here f small free = elim (Bool-cases ((a - ram_start) / 4096 == f)) [
    | inl same ↦
        let at = ==→eq ((a - ram_start) / 4096) f same in
        no_link free (
          rw at at (
            init_frames_covers fs kernel_start_addr kernel_end_addr ram_start dtb dtb_size a bytes
              layout kernel_aligned dtb_aligned here (rw at small)))
    | inr other ↦
        other_frame ram_start a f (above here) (not_==→ne ((a - ram_start) / 4096) f other)
  ]
    where
      above : IsBootByte kernel_start_addr kernel_end_addr dtb dtb_size a → ram_start ≤ a
      above (inl h) = omega (arith, layout.kernel_in)
      above (inr h) = omega (arith, layout.dtb_in)

module _ (out : Outside)
    (fuel kernel_start_ptr kernel_end_ptr naked_trap_handler trap_stack setup dtb : ℕ) where
  -- `kernel_init`, where `print_fdt_info` returns with what `IsBootable` asks for, and with a kernel
  -- and a device tree that lie in memory and start on pages, returns its jump, and every byte in the
  -- range of the kernel or of the device tree is what it was when the tree was read, the globals
  -- aside, which are the fields of `Machine` beside memory.
  pub kernel_init-Preserves :
      (s s1 : Machine) (code : ℤ)
      → print_fdt_info out fuel dtb (greeted s) ≡ done code s1
      → IsBootable kernel_start_ptr kernel_end_ptr setup s1
      → IsLayout kernel_start_ptr kernel_end_ptr s1.device.ram_start s1.device.dtb
          s1.device.dtb_size
      → (kernel_start_ptr - s1.device.ram_start) % 4096 ≡ 0
      → (s1.device.dtb - s1.device.ram_start) % 4096 ≡ 0
      → Returns
          (λ _ s'.
            (a : ℕ)
            → IsBootByte kernel_start_ptr kernel_end_ptr s1.device.dtb s1.device.dtb_size a
            → s'.memory a ≡ s1.memory a)
          (kernel_init out fuel kernel_start_ptr kernel_end_ptr naked_trap_handler trap_stack setup
            dtb s)
  kernel_init-Preserves s s1 code found boot layout p q =
      mono
        (kernel_init-IsUp out fuel kernel_start_ptr kernel_end_ptr naked_trap_handler trap_stack
          setup dtb s s1 code found boot)
        (λ _ s' up a here. up.preserved a (
          boot_byte-OutsideFree s1.frames kernel_start_ptr kernel_end_ptr s1.device.ram_start
            s1.device.dtb s1.device.dtb_size boot.bitmap layout p q a here))
