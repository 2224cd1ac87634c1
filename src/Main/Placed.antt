-- ===== src/Main/Placed.antt =====
-- How `kernel_init` of src/main.c comes to its jump: the state at each stage.
use fifth_kernel.Base.{
  ℕ, ◌+◌, ◌-◌, ◌*◌, ◌/◌, ◌%◌, ◌^◌, ◌≤◌, ◌<◌, ◌≡◌, refl, ℤ, List, [], ◌∷◌, ap, bit_and,
}
use fifth_kernel.Frame.{init_frames, frame_count, Frames}
use fifth_kernel.Frame.Bitmap.{IsBitmap}
use fifth_kernel.Frame.Range.{init_frames-IsBitmap}
use fifth_kernel.Frame.Free.{free_frames}
use fifth_kernel.Machine.{Machine, done, u64, Printed}
use fifth_kernel.Machine.Returns.{Returns, returns, bind}
use fifth_kernel.Machine.Prints.{printed, OnlyPrints}
use fifth_kernel.Page.MapType
use fifth_kernel.Page.Tree.{IsRange}
use fifth_kernel.Page.Boot.{kernel_end_page, enable_paging}
use fifth_kernel.Page.Requests.{new_tables}
use fifth_kernel.Page.Enable.{IsTranslated, enable_paging-IsTranslated}
use fifth_kernel.Page.Fill.{boot_requests}
use fifth_kernel.Page.Translated.{IsLayout}
use fifth_kernel.Page.Maps.{boot_requests-AreSmall}
use fifth_kernel.Privilege.{Jump}
use fifth_kernel.Trap.{init_traps, enable_interrupts}
use fifth_kernel.Fdt.{Outside}
use fifth_kernel.Fdt.Parse.{print_fdt_info}
use fifth_kernel.Main.{kernel_init, boot_frames, report_n_frames}

-- The state when `kernel_init` has greeted.
abbrev pub greeted : Machine → Machine
greeted s = printed "Hello, rv64!\n" [] (printed "%zd" ((4 + 5) ∷ []) s)

-- The bitmap when the kernel's frames and those of the device tree are marked.
abbrev pub boot_bitmap : (kernel_start_ptr kernel_end_ptr : ℕ) → Machine → Frames
boot_bitmap kernel_start_ptr kernel_end_ptr s =
    init_frames s.frames kernel_start_ptr kernel_end_ptr s.device.ram_start s.device.dtb
      s.device.dtb_size

-- The state that `init_frames` leaves, but for the console.
abbrev pub placed : (kernel_start_ptr kernel_end_ptr : ℕ) → Machine → Machine
placed kernel_start_ptr kernel_end_ptr s = record s {
  frames = boot_bitmap kernel_start_ptr kernel_end_ptr s;
  kernel_start_addr = kernel_start_ptr;
  kernel_end_addr = kernel_end_ptr;
}

-- What the kernel has found out when the device tree is read, and where it lies.
pub record IsBootable (kernel_start_ptr kernel_end_ptr setup : ℕ) (s : Machine) : Type 0 where
  pub bitmap : IsBitmap s.frames
  pub range : IsRange s.device.ram_start 0
  pub above : 0 < s.device.ram_start
  pub layout : IsLayout (placed kernel_start_ptr kernel_end_ptr s)
  pub enough :
      let p = placed kernel_start_ptr kernel_end_ptr s in
      1 + 2 * new_tables [] (boot_requests p) ≤ free_frames frame_count p.frames
  pub aligned : kernel_start_ptr % 4096 ≡ 0
  pub from : kernel_start_ptr ≤ setup
  pub upto : setup / 4096 ≤ kernel_end_page (placed kernel_start_ptr kernel_end_ptr s)

boot_frames-placed :
    (kernel_start_ptr kernel_end_ptr : ℕ) (s : Machine)
    → Returns
        (λ _ s'. OnlyPrints (placed kernel_start_ptr kernel_end_ptr s) s')
        (boot_frames kernel_start_ptr kernel_end_ptr s)
unfolding boot_frames report_n_frames init_frames
boot_frames-placed kernel_start_ptr kernel_end_ptr s = returns (_, refl)

-- The distance to the higher half.
abbrev pub up : (kernel_start_ptr : ℕ) → ℕ
up kernel_start_ptr = u64 (MapType.higher_half_addr_start + 2 ^ 64 - kernel_start_ptr)

-- The trap handler's address in the higher half, without the two bits of the mode.
abbrev pub higher_handler : (kernel_start_ptr naked_trap_handler : ℕ) → ℕ
higher_handler kernel_start_ptr naked_trap_handler =
    bit_and (u64 (naked_trap_handler + MapType.higher_half_addr_start + 2 ^ 64 - kernel_start_ptr))
      (2 ^ 64 - 1 - 3)

-- The state in which `enable_paging` is called.
abbrev pub here : (kernel_start_ptr kernel_end_ptr : ℕ) → Machine → List Printed → Machine
here kernel_start_ptr kernel_end_ptr s c = record (placed kernel_start_ptr kernel_end_ptr s) {
  console = c;
}

-- `kernel_init` came to its jump by a state in which `enable_paging` had just returned; from there
-- on it changed the registers for traps and the console.
pub record Ends (kernel_start_ptr kernel_end_ptr naked_trap_handler trap_stack setup : ℕ)
    (before : Machine) (j : Jump) (s : Machine) : Type 0 where
  pub console : List Printed
  pub translated : Machine
  pub paging : IsTranslated (here kernel_start_ptr kernel_end_ptr before console) translated
  pub jump : j ≡ record { pc = u64 (setup + up kernel_start_ptr); a0 = up kernel_start_ptr }
  pub satp : s.csr.satp ≡ translated.csr.satp
  pub enabled : s.csr.sie ≡ 0xFF
  pub sscratch : s.csr.sscratch ≡ u64 (trap_stack + 4096)
  pub stvec : s.csr.stvec ≡ higher_handler kernel_start_ptr naked_trap_handler
  pub rest : s ≡ record translated { csr = s.csr; console = s.console }

module _ (kernel_start_ptr kernel_end_ptr setup : ℕ) (s1 : Machine)
    (boot : IsBootable kernel_start_ptr kernel_end_ptr setup s1) (c : List Printed) where
  bytes : IsBitmap (boot_bitmap kernel_start_ptr kernel_end_ptr s1)
  bytes =
      init_frames-IsBitmap s1.frames kernel_start_ptr kernel_end_ptr s1.device.ram_start
        s1.device.dtb s1.device.dtb_size boot.bitmap

  pub here-IsLayout : IsLayout (here kernel_start_ptr kernel_end_ptr s1 c)
  here-IsLayout = record {
    kernel_low = boot.layout.kernel_low;
    kernel_small = boot.layout.kernel_small;
    devices_low = boot.layout.devices_low;
    memory_low = boot.layout.memory_low;
  }

  here-IsTranslated :
      Returns
        (λ _ s'. IsTranslated (here kernel_start_ptr kernel_end_ptr s1 c) s')
        (enable_paging (here kernel_start_ptr kernel_end_ptr s1 c))
  here-IsTranslated =
      enable_paging-IsTranslated (here kernel_start_ptr kernel_end_ptr s1 c) bytes boot.range
        boot.above
        (boot_requests-AreSmall (here kernel_start_ptr kernel_end_ptr s1 c) here-IsLayout)
        boot.enough

pub kernel_init-Ends :
    (out : Outside)
    (fuel kernel_start_ptr kernel_end_ptr naked_trap_handler trap_stack setup dtb : ℕ)
    (s s1 : Machine) (code : ℤ)
    → print_fdt_info out fuel dtb (greeted s) ≡ done code s1
    → IsBootable kernel_start_ptr kernel_end_ptr setup s1
    → Returns (Ends kernel_start_ptr kernel_end_ptr naked_trap_handler trap_stack setup s1) (
        kernel_init out fuel kernel_start_ptr kernel_end_ptr naked_trap_handler trap_stack setup dtb
          s)
unfolding kernel_init init_traps enable_interrupts
kernel_init-Ends out fuel kernel_start_ptr kernel_end_ptr naked_trap_handler trap_stack setup dtb s
      s1 code found boot =
    rw found (
      bind (boot_frames-placed kernel_start_ptr kernel_end_ptr s1) (λ _ s2 (c, e). rw e (
        bind (here-IsTranslated kernel_start_ptr kernel_end_ptr setup s1 boot c) (λ _ s3 t.
          returns record {
            console = c;
            translated = s3;
            paging = t;
            jump =
                ap {A = ℕ} {B = Jump} (λ z. record { pc = u64 (setup + up z); a0 = up z })
                  (ap (λ z. z.kernel_start_addr) t.rest);
            satp = refl;
            enabled = refl;
            sscratch = refl;
            stvec =
                ap (λ k. higher_handler k naked_trap_handler)
                  (ap (λ z. z.kernel_start_addr) t.rest);
            rest = refl;
          }))))
