-- ===== src/Main/Boot.antt =====
-- The way from `kernel_start` into `kernel_init`, and `init_frames` on the kernel's state, in
-- src/main.c and src/frame.c.
use fifth_kernel.Base.{ℕ, zero, suc, ◌+◌, ◌/◌, ◌%◌, ◌^◌, ◌<◌, ◌≡◌, refl, ap, ◌∙◌, ◌==◌, bit_and, []}
use fifth_kernel.Memory.{Memory}
use fifth_kernel.Machine.{Machine}
use fifth_kernel.Machine.Returns.{Returns, returns, bind, mono}
use fifth_kernel.Machine.Prints.{
  OnlyPrints-trans, printed, Prints, Prints-then, Prints-if, printf-Prints, pure-Prints,
}
use fifth_kernel.Privilege.Mpp.{set_priv_m-IsLeft}
use fifth_kernel.Frame.{init_frames}
use fifth_kernel.Main.{boot_frames, report_n_frames, print_extensions, print_misa, kernel_start}

print_extensions-Prints :
    (left i misa : ℕ) (s : Machine) → Prints s (print_extensions left i misa s)
unfolding print_extensions
print_extensions-Prints zero i misa s = pure-Prints tt s
print_extensions-Prints (suc left) i misa s =
    Prints-then s
      (Prints-if s (bit_and misa (2 ^ i) == 0) _ _ (pure-Prints tt s) (printf-Prints s _ _))
      (λ _ s' _. print_extensions-Prints left (i + 1) misa s')

print_misa-Prints : (misa : ℕ) (s : Machine) → Prints s (print_misa misa s)
unfolding print_misa
print_misa-Prints misa s = Prints-if s (misa == 0) _ _ (printf-Prints s _ _) (
    Prints-then s
      (mono (print_extensions-Prints 26 0 misa (printed "Supported extensions: " [] s))
        (λ _ s' p. OnlyPrints-trans s (printed "Supported extensions: " [] s) s' (_, refl) p))
      (λ _ s' _. printf-Prints s' _ _))

-- `kernel_start`, whatever `misa` reads, where `mstatus` has 64 bits, jumps to `kernel_init` with the
-- device tree in a0, in supervisor mode by the field MPP, with translation off and the low sixteen
-- interrupts and exceptions delegated; memory is unchanged.
pub kernel_start_lem :
    (kernel_init dtb : ℕ) (s : Machine)
    → s.csr.mstatus < 2 ^ 64
    → Returns
        (λ j s'.
          (j.pc ≡ kernel_init)
          × (j.a0 ≡ dtb)
          × (s'.csr.mstatus / 2 ^ 11 % 4 ≡ 1)
          × (s'.csr.satp ≡ 0)
          × (s'.csr.mideleg ≡ 0xFFFF)
          × (s'.csr.medeleg ≡ 0xFFFF)
          × (s'.memory ≡ s.memory))
        (kernel_start kernel_init dtb s)
unfolding kernel_start
kernel_start_lem kernel_init dtb s h = bind (print_misa-Prints s.csr.misa s) (λ _ s1 (c, e).
    mono
      (set_priv_m-IsLeft 1 kernel_init dtb
        (record s1 { csr = record s1.csr { mideleg = 0xFFFF; medeleg = 0xFFFF } })
        (rw (ap {A = Machine} {B = ℕ} (λ z. z.csr.mstatus) e) h))
      (λ j s' (to, arg, left). (
        to,
        arg,
        left.mpp,
        left.unpaged,
        left.delegated.0,
        left.delegated.1,
        left.same_memory ∙ ap {A = Machine} {B = Memory} (λ z. z.memory) e,
      )))

-- `init_frames` of the kernel's state returns, with the two addresses of the linker script recorded
-- and the bitmap that the function on bitmaps computes from them; it changes neither memory nor the
-- control registers.
pub boot_frames-init_frames :
    (kernel_start_ptr kernel_end_ptr : ℕ) (s : Machine)
    → Returns
        (λ _ s'.
          (s'.frames
            ≡ init_frames s.frames kernel_start_ptr kernel_end_ptr s.device.ram_start s.device.dtb
                s.device.dtb_size)
          × (s'.kernel_start_addr ≡ kernel_start_ptr)
          × (s'.kernel_end_addr ≡ kernel_end_ptr)
          × (s'.memory ≡ s.memory)
          × (s'.csr ≡ s.csr))
        (boot_frames kernel_start_ptr kernel_end_ptr s)
unfolding boot_frames report_n_frames init_frames
boot_frames-init_frames kernel_start_ptr kernel_end_ptr s = returns (refl, refl, refl, refl, refl)
