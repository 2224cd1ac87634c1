-- ===== src/Main/Init.antt =====
-- `kernel_init` of src/main.c as a whole.
use fifth_kernel.Base.{
  ℕ, ◌+◌, ◌-◌, ◌/◌, ◌%◌, ◌^◌, ◌≤◌, ◌≡◌, refl, ap, ◌∙◌, arith, some, ℤ, List, bit_or,
}
use fifth_kernel.Machine.{Machine, done, u64, Printed}
use fifth_kernel.Machine.Returns.{Returns, mono}
use fifth_kernel.Page.MapType
use fifth_kernel.Page.Walk.{lookup}
use fifth_kernel.Page.Paged.{page_leaf}
use fifth_kernel.Page.Footprint.{OutsideFree}
use fifth_kernel.Page.Maps.{IsReachable, IsTranslated-IsReachable}
use fifth_kernel.Privilege.{Jump}
use fifth_kernel.Fdt.{Outside}
use fifth_kernel.Fdt.Parse.{print_fdt_info}
use fifth_kernel.Main.{kernel_init}
use fifth_kernel.Main.Placed.{
  greeted, boot_bitmap, IsBootable, up, here, here-IsLayout, Ends, kernel_init-Ends,
}

-- Where `kernel_init` jumps to, and the state in which it does, where `before` was the state when
-- the device tree was read.
pub record IsUp (kernel_start_ptr kernel_end_ptr setup : ℕ) (before : Machine) (j : Jump)
    (s : Machine) : Type 0 where
  pub root : ℕ
  pub satp : s.csr.satp ≡ bit_or (root / 4096) MapType.paging_mode_sv39
  pub target : lookup s.memory 0 root (j.pc / 4096 % 2 ^ 27) ≡ some (page_leaf (setup / 4096))
  pub high : MapType.higher_half_addr_start ≤ j.pc
  pub offset : j.pc % 4096 ≡ setup % 4096
  pub argument : j.a0 ≡ u64 (MapType.higher_half_addr_start + 2 ^ 64 - kernel_start_ptr)
  pub enabled : s.csr.sie ≡ 0xFF
  pub preserved :
      (x : ℕ)
      → OutsideFree (boot_bitmap kernel_start_ptr kernel_end_ptr before) before.device.ram_start 0 x
      → s.memory x ≡ before.memory x

module _ (kernel_start_ptr kernel_end_ptr setup : ℕ) (s1 : Machine)
    (boot : IsBootable kernel_start_ptr kernel_end_ptr setup s1) where
  jump_page :
      u64 (setup + up kernel_start_ptr) / 4096 % 2 ^ 27
      ≡ MapType.higher_half_vpn + (setup / 4096 - kernel_start_ptr / 4096)
  jump_page = omega (arith, boot.aligned, boot.from, boot.upto, boot.layout.kernel_low)

  jump_offset : u64 (setup + up kernel_start_ptr) % 4096 ≡ setup % 4096
  jump_offset = omega (arith, boot.aligned, boot.from, boot.upto, boot.layout.kernel_low)

  jump_high : MapType.higher_half_addr_start ≤ u64 (setup + up kernel_start_ptr)
  jump_high = omega (arith, boot.aligned, boot.from, boot.upto, boot.layout.kernel_low)

  reached :
      (c : List Printed) (s3 : Machine)
      → (r : IsReachable (here kernel_start_ptr kernel_end_ptr s1 c) s3)
      → lookup s3.memory 0 r.root (u64 (setup + up kernel_start_ptr) / 4096 % 2 ^ 27)
        ≡ some (page_leaf (setup / 4096))
  reached c s3 r = rw jump_page ((r.kernel (setup / 4096) (omega (arith, boot.from)) boot.upto).1)

  Ends-IsUp :
      (naked_trap_handler trap_stack : ℕ) (j : Jump) (s : Machine)
      → Ends kernel_start_ptr kernel_end_ptr naked_trap_handler trap_stack setup s1 j s
      → IsUp kernel_start_ptr kernel_end_ptr setup s1 j s
  Ends-IsUp naked_trap_handler trap_stack j s ends =
      let layout = here-IsLayout kernel_start_ptr kernel_end_ptr setup s1 boot ends.console in
      let r = IsTranslated-IsReachable _ _ layout ends.paging in
      let same : s.memory ≡ ends.translated.memory = ap (λ z. z.memory) ends.rest in
      rw ends.jump record {
        root = r.root;
        satp = ends.satp ∙ r.satp;
        target = rw same (reached ends.console ends.translated r);
        high = jump_high;
        offset = jump_offset;
        argument = refl;
        enabled = ends.enabled;
        preserved = λ x out. ap (λ m. m x) same ∙ ends.paging.preserved x out;
      }

module _ (out : Outside)
    (fuel kernel_start_ptr kernel_end_ptr naked_trap_handler trap_stack setup dtb : ℕ) where
  -- `kernel_init`, where `print_fdt_info` returns with what `IsBootable` asks for (memory that starts
  -- on a page, the kernel, which starts on a page, the devices and memory below the higher half, and
  -- frames enough for the tables), returns its jump. The address that it jumps to lies in the higher
  -- half and is mapped by the table that `satp` names to the page of `setup_post_relocation`, at the
  -- same offset in it, its argument is the distance to the higher half, interrupts are enabled, and no
  -- byte has changed outside the frames that were free when the kernel's and the device tree's were
  -- marked.
  pub kernel_init-IsUp :
      (s s1 : Machine) (code : ℤ)
      → print_fdt_info out fuel dtb (greeted s) ≡ done code s1
      → IsBootable kernel_start_ptr kernel_end_ptr setup s1
      → Returns (IsUp kernel_start_ptr kernel_end_ptr setup s1) (
          kernel_init out fuel kernel_start_ptr kernel_end_ptr naked_trap_handler trap_stack setup
            dtb s)
  kernel_init-IsUp s s1 code found boot =
      mono
        (kernel_init-Ends out fuel kernel_start_ptr kernel_end_ptr naked_trap_handler trap_stack
          setup dtb s s1 code found boot)
        (λ j s' ends.
          Ends-IsUp kernel_start_ptr kernel_end_ptr setup s1 boot naked_trap_handler trap_stack j s'
            ends)
