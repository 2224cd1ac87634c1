-- ===== src/Main/Tree.antt =====
-- `kernel_init` of src/main.c on a device tree: the walk over the tree, and the boot on what it tells.
use fifth_kernel.Base.{ℕ, ◌+◌, ◌-◌, ◌%◌, ◌≤◌, ◌<◌, ◌≡◌, ap, ◌∙◌, ℤ, List}
use fifth_kernel.Machine.{u64, Machine, Run, done, Printed, DeviceInformation}
use fifth_kernel.Machine.Returns.{Returns, mono, both, ended, returned}
use fifth_kernel.Page.Boot.{unmap_lower_half_kernel}
use fifth_kernel.Page.FirstPage.{current}
use fifth_kernel.Page.Through.{through}
use fifth_kernel.Page.Handover.{IsHandedOver}
use fifth_kernel.Privilege.{Jump}
use fifth_kernel.Fdt.{Outside}
use fifth_kernel.Fdt.Facts.{Fact, learned}
use fifth_kernel.Fdt.Parse.{print_fdt_info}
use fifth_kernel.Fdt.Walk.{facts}
use fifth_kernel.Fdt.Info.{IsTree, noted, print_fdt_info-Informed}
use fifth_kernel.Main.{kernel_init}
use fifth_kernel.Main.Placed.{greeted, placed, IsBootable, higher_handler, kernel_init-Ends}
use fifth_kernel.Main.Init.{IsUp, kernel_init-IsUp}
use fifth_kernel.Main.Preserved.{IsBootByte, kernel_init-Preserves}
use fifth_kernel.Main.Handover.{IsInRam, IsHigh, kernel_init-IsHandedOver}

-- The state in which the facts of the tree at `header` are known, but for the console.
abbrev pub aware : (header : ℕ) → List Fact → Machine → Machine
aware header told s = record s { device = learned told (noted header s).device }

-- What `kernel_init` has done when it jumps, where `before` is the state in which the tree's facts
-- are known.
pub record Boots (kernel_start_ptr kernel_end_ptr naked_trap_handler trap_stack setup : ℕ)
    (before : Machine) (j : Jump) (s : Machine) : Type 0 where
  pub up : IsUp kernel_start_ptr kernel_end_ptr setup before j s
  pub handed : IsHandedOver (placed kernel_start_ptr kernel_end_ptr before) s
  pub high :
      Returns
        (λ _ s2. IsHigh (placed kernel_start_ptr kernel_end_ptr before) (current (through s)) s2)
        (unmap_lower_half_kernel (through s))
  pub sscratch : s.csr.sscratch ≡ u64 (trap_stack + 4096)
  pub stvec : s.csr.stvec ≡ higher_handler kernel_start_ptr naked_trap_handler
  pub untouched :
      (a : ℕ)
      → IsBootByte kernel_start_ptr kernel_end_ptr before.device.dtb before.device.dtb_size a
      → s.memory a ≡ before.memory a

-- The console plays no part in where the kernel lies.
with_console-IsBootable :
    (kernel_start_ptr kernel_end_ptr setup : ℕ) (s : Machine) (c : List Printed)
    → IsBootable kernel_start_ptr kernel_end_ptr setup s
    → IsBootable kernel_start_ptr kernel_end_ptr setup (record s { console = c })
with_console-IsBootable kernel_start_ptr kernel_end_ptr setup s c b = record {
  bitmap = b.bitmap;
  range = b.range;
  above = b.above;
  layout = record {
    kernel_low = b.layout.kernel_low;
    kernel_small = b.layout.kernel_small;
    devices_low = b.layout.devices_low;
    memory_low = b.layout.memory_low;
  };
  enough = b.enough;
  aligned = b.aligned;
  from = b.from;
  upto = b.upto;
}

with_console-IsInRam :
    (kernel_start_ptr kernel_end_ptr ram_frames : ℕ) (s : Machine) (c : List Printed)
    → IsInRam kernel_start_ptr kernel_end_ptr ram_frames s
    → IsInRam kernel_start_ptr kernel_end_ptr ram_frames (record s { console = c })
with_console-IsInRam kernel_start_ptr kernel_end_ptr ram_frames s c r = record {
  in_bitmap = r.in_bitmap;
  in_ram = r.in_ram;
  frames = r.frames;
  kernel_in = r.kernel_in;
  dtb_in = r.dtb_in;
  enough = r.enough;
  low = r.low;
}

module _ (out : Outside)
    (fuel kernel_start_ptr kernel_end_ptr naked_trap_handler trap_stack setup dtb
      ram_frames : ℕ) where
  abbrev run : Machine → Run Jump
  run s =
      kernel_init out fuel kernel_start_ptr kernel_end_ptr naked_trap_handler trap_stack setup dtb s

  aware-Boots :
      (s before : Machine) (c : List Printed) (code : ℤ)
      → print_fdt_info out fuel dtb (greeted s) ≡ done code (record before { console = c })
      → IsBootable kernel_start_ptr kernel_end_ptr setup before
      → IsInRam kernel_start_ptr kernel_end_ptr ram_frames before
      → (kernel_start_ptr - before.device.ram_start) % 4096 ≡ 0
      → (before.device.dtb - before.device.ram_start) % 4096 ≡ 0
      → Returns
          (Boots kernel_start_ptr kernel_end_ptr naked_trap_handler trap_stack setup before)
          (run s)
  aware-Boots s before c code found boot ram p q =
      let s1 : Machine = record before { console = c } in
      let boot' = with_console-IsBootable kernel_start_ptr kernel_end_ptr setup before c boot in
      let ram' = with_console-IsInRam kernel_start_ptr kernel_end_ptr ram_frames before c ram in
      mono
        (both
          (kernel_init-IsUp out fuel kernel_start_ptr kernel_end_ptr naked_trap_handler trap_stack
            setup dtb s s1 code found boot')
          (both
            (kernel_init-IsHandedOver out fuel kernel_start_ptr kernel_end_ptr naked_trap_handler
              trap_stack setup dtb ram_frames s s1 code found boot' ram')
            (both
              (kernel_init-Preserves out fuel kernel_start_ptr kernel_end_ptr naked_trap_handler
                trap_stack setup dtb s s1 code found boot' ram.frames p q)
              (kernel_init-Ends out fuel kernel_start_ptr kernel_end_ptr naked_trap_handler
                trap_stack setup dtb s s1 code found boot'))))
        (λ j s' (up, ((handed, high), (same, ends))). record {
          up = record {
            root = up.root;
            satp = up.satp;
            target = up.target;
            high = up.high;
            offset = up.offset;
            argument = up.argument;
            enabled = up.enabled;
            preserved = up.preserved;
          };
          handed = record {
            places = handed.places;
            paged = handed.paged;
            given = handed.given;
            mapped = handed.mapped;
            looked = handed.looked;
            bytes = handed.bytes;
            rest = handed.rest;
          };
          high =
              mono high (λ _ s2 h. record {
                places = h.places;
                paged = h.paged;
                low = h.low;
                high = h.high;
              });
          sscratch = ends.sscratch;
          stvec = ends.stvec;
          untouched = same;
        })

  -- `kernel_init` on a device tree as `IsTree` describes it, where what the tree tells is enough for
  -- `IsBootable` and `IsInRam`, and where the kernel and the tree start on pages, returns its jump.
  -- The address that it jumps to is mapped to `setup_post_relocation`; the table that `satp` names
  -- is, as it is seen through itself, well formed, and `unmap_lower_half_kernel` there takes away
  -- the kernel's pages of the lower half and keeps those of the higher half; `sscratch` is the top of
  -- the trap stack and `stvec` the trap handler in the higher half; and no byte of memory
  -- in the range of the kernel or of the tree is other than it was at the start, the kernel's globals
  -- aside, which are the fields of `Machine` beside memory.
  pub kernel_init-Boots :
      (s : Machine) (n k bound : ℕ) (tree : IsTree out s.memory dtb n k bound)
      → n + bound ≤ fuel
      → k < fuel
      → IsBootable kernel_start_ptr kernel_end_ptr setup (aware dtb (facts tree.block) s)
      → IsInRam kernel_start_ptr kernel_end_ptr ram_frames (aware dtb (facts tree.block) s)
      → (kernel_start_ptr - (aware dtb (facts tree.block) s).device.ram_start) % 4096 ≡ 0
      → ((aware dtb (facts tree.block) s).device.dtb
            - (aware dtb (facts tree.block) s).device.ram_start)
          % 4096
        ≡ 0
      → Returns
          (Boots kernel_start_ptr kernel_end_ptr naked_trap_handler trap_stack setup
            (aware dtb (facts tree.block) s))
          (run s)
  kernel_init-Boots s n k bound tree enough few boot ram p q =
      let told = facts tree.block in
      let walk = print_fdt_info-Informed out fuel dtb n k bound (greeted s) tree enough few in
      let (code, s1, found) = ended walk in
      let informed = (returned walk found).1 in
      let at : s1 ≡ record (aware dtb told s) { console = s1.console } =
        informed.rest
        ∙ ap {A = DeviceInformation} {B = Machine}
            (λ d. record s { device = d; console = s1.console }) informed.device in
      aware-Boots s (aware dtb told s) s1.console code
        (found ∙ ap {A = Machine} {B = Run ℤ} (λ z. done code z) at) boot ram p q
