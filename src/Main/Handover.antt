-- ===== src/Main/Handover.antt =====
-- What `kernel_init` of src/main.c hands over to the code in the higher half: the page table, as it
-- is seen through itself, and the end of the lower half's kernel.
use fifth_kernel.Page.Maps.{low_page, high_page}
use fifth_kernel.Page.Translated.{IsLayout}
use fifth_kernel.Page.Paged.{IsPaged, space, page_leaf}
use fifth_kernel.Page.Tree.{Places}
use mathlib.Core.Path.{subst}
use fifth_kernel.Base.{
  ℕ, ◌+◌, ◌-◌, ◌*◌, ◌/◌, ◌^◌, ◌≤◌, ◌<◌, ◌≡◌, ap, ◌∙◌, arith, true, ℤ, [], List, some, none, refl,
  false,
}
use fifth_kernel.Frame.{frame_count}
use fifth_kernel.Frame.Bitmap.{allocated}
use fifth_kernel.Frame.Free.{free_frames}
use fifth_kernel.Frame.Range.{in_range, init_frames_lem}
use fifth_kernel.Machine.{Machine, done, Printed, u64}
use fifth_kernel.Machine.Returns.{Returns, mono}
use fifth_kernel.Page.Boot.{kernel_start_page, kernel_end_page, unmap_lower_half_kernel}
use fifth_kernel.Page.Requests.{first_request, new_tables}
use fifth_kernel.Page.Fill.{boot_requests}
use fifth_kernel.Page.FirstPage.{current}
use fifth_kernel.Page.Through.{through}
use fifth_kernel.Page.Handover.{IsRam, IsHandedOver, IsTranslated-IsHandedOver, IsHandedOver-same}
use fifth_kernel.Page.LowerHalf.{IsCleared, unmap_lower_half_kernel-IsCleared}
use fifth_kernel.Fdt.{Outside}
use fifth_kernel.Fdt.Parse.{print_fdt_info}
use fifth_kernel.Main.{kernel_init}
use fifth_kernel.Main.Placed.{
  greeted, placed, boot_bitmap, IsBootable, here, here-IsLayout, kernel_init-Ends,
}
use fifth_kernel.Frame.Range
use fifth_kernel.Page.LowerHalf
use fifth_kernel.Page.MapType

-- The kernel and the device tree lie in the first `ram_frames` frames, which are memory, and these
-- have frames enough for the tables.
pub record IsInRam (kernel_start_ptr kernel_end_ptr ram_frames : ℕ) (s : Machine) : Type 0 where
  pub in_bitmap : ram_frames ≤ frame_count
  pub in_ram : 4096 * ram_frames ≤ s.device.ram_size
  pub frames :
      Range.IsLayout kernel_start_ptr kernel_end_ptr s.device.ram_start s.device.dtb
        s.device.dtb_size
  pub kernel_in : kernel_end_ptr ≤ s.device.ram_start + 4096 * ram_frames
  pub dtb_in : s.device.dtb + s.device.dtb_size ≤ s.device.ram_start + 4096 * ram_frames
  pub enough :
      1 + 2 * new_tables [] (boot_requests (placed kernel_start_ptr kernel_end_ptr s))
      < free_frames ram_frames (boot_bitmap kernel_start_ptr kernel_end_ptr s)
  pub low : s.device.ram_start + 4096 * frame_count ≤ 4096 * (2 ^ 26 - 2 ^ 20)

module _ (kernel_start_ptr kernel_end_ptr setup ram_frames : ℕ) (s1 : Machine)
    (boot : IsBootable kernel_start_ptr kernel_end_ptr setup s1)
    (ram : IsInRam kernel_start_ptr kernel_end_ptr ram_frames s1) where
  marked_low :
      (f : ℕ)
      → f < frame_count
      → allocated (boot_bitmap kernel_start_ptr kernel_end_ptr s1) f ≡ true
      → f < ram_frames
  marked_low f small marked = ground (
    arith,
    init_frames_lem s1.frames kernel_start_ptr kernel_end_ptr s1.device.ram_start s1.device.dtb
        s1.device.dtb_size f boot.bitmap ram.frames small,
    ram.kernel_in,
    ram.dtb_in,
    ram.frames.kernel_in,
    ram.frames.kernel_order,
    ram.frames.dtb_in,
    marked,
  )

  here-IsRam : (c : List Printed) → IsRam ram_frames (here kernel_start_ptr kernel_end_ptr s1 c)
  here-IsRam c = record {
    in_bitmap = ram.in_bitmap;
    in_ram = ram.in_ram;
    taken_low = marked_low;
    enough = ram.enough;
    low = ram.low;
  }

-- The lower half has none of the kernel's pages any more, and the higher half has them all.
pub record IsHigh (before : Machine) (root : ℕ) (s : Machine) : Type 0 where
  pub places : Places
  pub paged : IsPaged places root s
  pub low :
      (p : ℕ) → kernel_start_page before ≤ p → p ≤ kernel_end_page before → space root s p ≡ none
  pub high :
      (p : ℕ)
      → kernel_start_page before ≤ p
      → p ≤ kernel_end_page before
      → space root s (MapType.higher_half_vpn + (p - kernel_start_page before)) ≡ some (page_leaf p)

module _ (before sv : Machine) (root : ℕ) (layout : IsLayout before)
    (asked : (v : ℕ) → v < 2 ^ 27 → space root sv v ≡ first_request (boot_requests before) v) where
  pub IsCleared-IsHigh :
      (s2 : Machine)
      → IsCleared root (kernel_start_page before) (kernel_end_page before + 1) sv s2
      → IsHigh before root s2
  IsCleared-IsHigh s2 c = record {
    places = c.places;
    paged = c.paged;
    low = λ p a b.
        let mapped = asked p (omega (arith, layout.kernel_low)) ∙ low_page before layout p a b in
        let within : LowerHalf.in_range (kernel_start_page before) (kernel_end_page before + 1) p
            ≡ true =
          ground arith in
        c.mapped p (omega (arith, layout.kernel_low)) ∙ rw (within, mapped) refl;
    high = λ p a b.
        let v : ℕ = MapType.higher_half_vpn + (p - kernel_start_page before) in
        let mapped = asked v (omega (arith, layout.kernel_low)) ∙ high_page before layout p a b in
        let out : LowerHalf.in_range (kernel_start_page before) (kernel_end_page before + 1) v
            ≡ false =
          ground (arith, layout.kernel_low) in
        c.mapped v (omega (arith, layout.kernel_low)) ∙ rw (out, mapped) refl;
  }

module _ (before s' : Machine) (layout : IsLayout before) (h : IsHandedOver before s')
    (start_same : s'.kernel_start_addr ≡ before.kernel_start_addr)
    (end_same : s'.kernel_end_addr ≡ before.kernel_end_addr)
    (order : kernel_start_page before ≤ kernel_end_page before) where
  abbrev root : ℕ
  root = current (through s')

  first_same : kernel_start_page s' ≡ kernel_start_page before
  first_same = ap (λ z. z / 4096) start_same

  last_same : kernel_end_page s' ≡ kernel_end_page before
  last_same = ap (λ z. u64 (z + 4095) / 4096) end_same

  pub handed-IsHigh : Returns (λ _ s2. IsHigh before root s2) (unmap_lower_half_kernel (through s'))
  handed-IsHigh =
      mono
        (unmap_lower_half_kernel-IsCleared (through s') h.places h.paged h.given
          (omega (arith, first_same, last_same, order))
          (omega (arith, last_same, layout.kernel_low)))
        (λ _ s2 c. IsCleared-IsHigh before (through s') root layout h.mapped s2 (
          subst (λ last. IsCleared root (kernel_start_page before) (last + 1) (through s') s2)
            last_same
            (subst (λ first. IsCleared root first (kernel_end_page s' + 1) (through s') s2)
              first_same c)))

module _ (out : Outside)
    (fuel kernel_start_ptr kernel_end_ptr naked_trap_handler trap_stack setup dtb
      ram_frames : ℕ) where
  -- `kernel_init`, where `print_fdt_info` returns with what `IsBootable` asks for, and where the
  -- kernel, the device tree and frames enough for the tables lie among the first frames of memory,
  -- returns its jump in a state that the code in the higher half can work on: through the translation
  -- by the table that `satp` names, the table at `current_pt` is well formed, with `ident_map_addr` as
  -- the distance at which its tables are seen, and it maps exactly what was asked for. There
  -- `unmap_lower_half_kernel` returns, and behind it the table is well formed, none of the kernel's
  -- pages is mapped in the lower half, and each one is in the higher half.
  pub kernel_init-IsHandedOver :
      (s s1 : Machine) (code : ℤ)
      → print_fdt_info out fuel dtb (greeted s) ≡ done code s1
      → IsBootable kernel_start_ptr kernel_end_ptr setup s1
      → IsInRam kernel_start_ptr kernel_end_ptr ram_frames s1
      → Returns
          (λ _ s'.
            IsHandedOver (placed kernel_start_ptr kernel_end_ptr s1) s'
            × Returns
                (λ _ s2.
                  IsHigh (placed kernel_start_ptr kernel_end_ptr s1) (current (through s')) s2)
                (unmap_lower_half_kernel (through s')))
          (kernel_init out fuel kernel_start_ptr kernel_end_ptr naked_trap_handler trap_stack setup
            dtb s)
  kernel_init-IsHandedOver s s1 code found boot ram =
      mono
        (kernel_init-Ends out fuel kernel_start_ptr kernel_end_ptr naked_trap_handler trap_stack
          setup dtb s s1 code found boot)
        (λ j s' ends.
          let before = here kernel_start_ptr kernel_end_ptr s1 ends.console in
          let layout = here-IsLayout kernel_start_ptr kernel_end_ptr setup s1 boot ends.console in
          let handed =
            IsTranslated-IsHandedOver before ends.translated ram_frames
              (here-IsRam kernel_start_ptr kernel_end_ptr setup ram_frames s1 boot ram ends.console)
              layout boot.range.ram_aligned ends.paging in
          let at_end = IsHandedOver-same before ends.translated s' ends.rest ends.satp handed in
          let high =
            handed-IsHigh before s' layout at_end
              (ap (λ z. z.kernel_start_addr) ends.rest
                ∙ ap (λ z. z.kernel_start_addr) ends.paging.rest)
              (ap (λ z. z.kernel_end_addr) ends.rest ∙ ap (λ z. z.kernel_end_addr) ends.paging.rest)
              (omega (arith, boot.from, boot.upto)) in
          (
            record {
              places = at_end.places;
              paged = at_end.paged;
              given = at_end.given;
              mapped = at_end.mapped;
              looked = at_end.looked;
              bytes = at_end.bytes;
              rest = at_end.rest;
            },
            mono high (λ _ s2 up. record {
              places = up.places;
              paged = up.paged;
              low = up.low;
              high = up.high;
            }),
          ))
