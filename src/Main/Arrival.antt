-- ===== src/Main/Arrival.antt =====
-- The boot of src/main.c as a whole: `kernel_init` on a device tree, the jump to the higher half, and
-- `setup_post_relocation` up to the loop of `kernel_main`.
use fifth_kernel.Main.Landing.{higher, IsImage, arrives, stack_top-sscratch}
use fifth_kernel.Base.{ℕ, ◌+◌, ◌-◌, ◌*◌, ◌%◌, ◌^◌, ◌≤◌, ◌<◌, ◌≡◌, ap, ◌∙◌, arith, ◌⊎◌, inr}
use fifth_kernel.Machine.{Machine}
use fifth_kernel.Machine.Returns.{Returns, mono}
use fifth_kernel.Page.Through.{through}
use fifth_kernel.Fdt.{Outside}
use fifth_kernel.Fdt.Walk.{facts}
use fifth_kernel.Fdt.Info.{IsTree}
use fifth_kernel.Main.{kernel_init, setup_post_relocation}
use fifth_kernel.Main.Placed.{placed, IsBootable}
use fifth_kernel.Main.Handover.{IsInRam}
use fifth_kernel.Main.Upper.{IsUpper}
use fifth_kernel.Trap.{Regs, mtimecmp}
use fifth_kernel.Trap.Saved.{IsWords}
use fifth_kernel.Trap.Sequence.{CanTrap, IsSound-CanTrap}
use fifth_kernel.Main.Tree.{aware, kernel_init-Boots}

-- The kernel in front of its loop: as `IsUpper` says, with `sscratch` at the top of the trap stack in the
-- higher half, and whatever trap of a handled kind is taken next, the handler returns.
pub record IsReady (call_regs : Regs → Regs) (keeps : (r : Regs) → call_regs r 2 ≡ r 2) (top : ℕ)
    (before : Machine) (diff : ℕ) (s s' : Machine) : Type 0 where
  pub upper : IsUpper before diff s s'
  pub stack : s'.csr.sscratch ≡ top
  pub low : 256 ≤ top
  pub high : top < 2 ^ 64
  pub apart : (top ≤ mtimecmp) ⊎ (mtimecmp + 8 + 256 ≤ top)
  pub traps :
      (x : Regs)
      → IsWords x
      → CanTrap call_regs keeps top low high apart (record { regs = x; machine = s' })

module _ (out : Outside)
    (fuel kernel_start_ptr kernel_end_ptr naked_trap_handler trap_stack setup dtb ram_frames rodata
      n program last : ℕ)
    (call_regs : Regs → Regs) (keeps : (r : Regs) → call_regs r 2 ≡ r 2) where
  IsUpper-IsReady :
      (top : ℕ) (before : Machine) (diff : ℕ) (s s2 : Machine)
      → IsUpper before diff s s2
      → s2.csr.sscratch ≡ top
      → top < 2 ^ 64
      → mtimecmp + 8 + 256 ≤ top
      → IsReady call_regs keeps top before diff s s2
  IsUpper-IsReady top before diff s s2 upper stack high above =
      let low : 256 ≤ top = omega arith in
      record {
        upper = upper;
        stack = stack;
        low = low;
        high = high;
        apart = inr above;
        traps = λ x words.
            IsSound-CanTrap call_regs keeps top low high (inr above)
              (record { regs = x; machine = s2 }) (record { words = words; stack = stack });
      }

  -- `kernel_init` on a device tree as `IsTree` describes it, where what the tree tells is enough for
  -- `IsBootable` and `IsInRam`, where the kernel and the tree start on pages, and on an image as
  -- `IsImage` describes it, returns its jump. From there, with memory seen through the table that
  -- `satp` names and the argument that the jump passes, `setup_post_relocation` comes to the loop of
  -- `kernel_main`: the table is well formed, none of the kernel's pages is mapped in the lower half
  -- and each one is in the higher half, the tick counter is 69, `sscratch` is the top of the trap
  -- stack in the higher half and no other control register has changed, the device information is
  -- as it was, and the next trap that the kernel handles, with a compiled `trap_handler` that keeps
  -- `sp`, returns and gives everything back.
  pub kernel_init-Arrives :
      (s : Machine) (tokens k bound : ℕ) (tree : IsTree out s.memory dtb tokens k bound)
      → tokens + bound ≤ fuel
      → k < fuel
      → IsBootable kernel_start_ptr kernel_end_ptr setup (aware dtb (facts tree.block) s)
      → IsInRam kernel_start_ptr kernel_end_ptr ram_frames (aware dtb (facts tree.block) s)
      → (kernel_start_ptr - (aware dtb (facts tree.block) s).device.ram_start) % 4096 ≡ 0
      → ((aware dtb (facts tree.block) s).device.dtb
            - (aware dtb (facts tree.block) s).device.ram_start)
          % 4096
        ≡ 0
      → IsImage kernel_start_ptr kernel_end_ptr trap_stack rodata n program s.memory
      → Returns
          (λ j s'.
            Returns
              (λ _ s2.
                IsReady call_regs keeps
                  (higher kernel_start_ptr (trap_stack + 4096))
                  (placed kernel_start_ptr kernel_end_ptr (aware dtb (facts tree.block) s))
                  j.a0
                  (through s')
                  s2)
              (setup_post_relocation j.a0
                (higher kernel_start_ptr rodata)
                (higher kernel_start_ptr rodata + 8 * n)
                (higher kernel_start_ptr program)
                last
                (through s')))
          (kernel_init out fuel kernel_start_ptr kernel_end_ptr naked_trap_handler trap_stack setup
            dtb s)
  kernel_init-Arrives s tokens k bound tree enough few boot ram q r image =
      mono
        (kernel_init-Boots out fuel kernel_start_ptr kernel_end_ptr naked_trap_handler trap_stack
          setup dtb ram_frames s tokens k bound tree enough few boot ram q r)
        (λ j s' boots.
          mono
            (arrives kernel_start_ptr kernel_end_ptr naked_trap_handler trap_stack setup ram_frames
              rodata n program (aware dtb (facts tree.block) s) boot ram image j s' boots last)
            (λ _ s2 upper.
              let top =
                stack_top-sscratch kernel_start_ptr kernel_end_ptr naked_trap_handler trap_stack
                  setup ram_frames rodata n program (aware dtb (facts tree.block) s) boot ram image
                  j s' boots in
              IsUpper-IsReady (higher kernel_start_ptr (trap_stack + 4096)) _ j.a0 (through s') s2
                upper (ap (λ c. c.sscratch) upper.csr ∙ top)
                (omega (arith, image.stack_upto, ram.frames.kernel_end))
                (omega (arith, image.stack_from, image.stack_upto))))
