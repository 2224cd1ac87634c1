-- ===== src/Tests/Init.antt =====
-- `kernel_init` of src/main.c on a kernel of one page, where no device tree is found.
use fifth_kernel.Main.Handover.{IsInRam, IsHigh, kernel_init-IsHandedOver}
use fifth_kernel.Page.Handover.{IsHandedOver}
use fifth_kernel.Page.Through.{through}
use fifth_kernel.Page.FirstPage.{current}
use fifth_kernel.Page.Boot.{unmap_lower_half_kernel}
use fifth_kernel.Base.{ℕ, ◌+◌, ◌≤◌, ◌<◌, ◌≡◌, refl, arith, [], ◌∷◌, negsuc, false}
use fifth_kernel.Memory.{load}
use fifth_kernel.Frame.{frame_count}
use fifth_kernel.Frame.Bitmap.{allocated}
use fifth_kernel.Frame.Free.{free_frames, free_frames-ge}
use fifth_kernel.Frame.Range
use fifth_kernel.Frame.Range.{init_frames_lem}
use fifth_kernel.Machine.{Machine, done}
use fifth_kernel.Machine.Returns.{Returns}
use fifth_kernel.Machine.Prints.{printed}
use fifth_kernel.Page.Walk.{prefix}
use fifth_kernel.Page.Requests.{new_tables}
use fifth_kernel.Page.BootList.{pages_of, locations_pages}
use fifth_kernel.Page.Fill.{boot_requests}
use fifth_kernel.Fdt.{Outside, swapb}
use fifth_kernel.Fdt.Parse.{print_fdt_info}
use fifth_kernel.Main.{kernel_init}
use fifth_kernel.Main.Placed.{greeted, placed, boot_bitmap, IsBootable}
use fifth_kernel.Tests.Values.{
  ram, paged, one_frame, one_frame-IsBitmap, paged-IsRange, free_frames-le,
}

abbrev out : Outside
out = record {
  sprintf_length = λ m a. 0;
  reg = 0x100;
  cpu = 0x110;
  memory = 0x120;
  address_cells = 0x130;
  size_cells = 0x140;
  address_before = 0;
  size_before = 0;
}

abbrev fresh : Machine
fresh = record paged { device = record paged.device { ram_size = 40960; dtb = ram } }

abbrev informed : Machine
informed = printed "invalid dtb header\n" [] (
    printed "fdt_header->magic: %#x\n" (0 ∷ [])
      (printed "fdt_header: %p\n" (ram ∷ []) (greeted fresh)))

no_tree : print_fdt_info out 9 ram (greeted fresh) ≡ done (negsuc 0) informed
unfolding print_fdt_info swapb load
no_tree = refl

frame_layout : Range.IsLayout ram (ram + 4096) ram ram 0
frame_layout = record {
  kernel_in = omega arith;
  kernel_order = omega arith;
  kernel_end = omega arith;
  dtb_in = omega arith;
  dtb_end = omega arith;
}

free : (f : ℕ) → 1 ≤ f → f < 1 + 9 → allocated (boot_bitmap ram (ram + 4096) informed) f ≡ false
free f lo hi = ground (
  arith,
  init_frames_lem one_frame ram (ram + 4096) ram ram 0 f one_frame-IsBitmap frame_layout
      (omega arith),
)

spare : 9 ≤ free_frames frame_count (boot_bitmap ram (ram + 4096) informed)
spare = omega (
  arith,
  free_frames-ge 1 9 (boot_bitmap ram (ram + 4096) informed) free,
  free_frames-le 262134 10 (boot_bitmap ram (ram + 4096) informed),
)

tables : new_tables [] (boot_requests (placed ram (ram + 4096) informed)) ≡ 3
unfolding new_tables pages_of locations_pages prefix
tables = refl

bootable : IsBootable ram (ram + 4096) (ram + 64) informed
bootable = record {
  bitmap = one_frame-IsBitmap;
  range = paged-IsRange;
  above = omega arith;
  layout = record {
    kernel_low = omega arith;
    kernel_small = omega arith;
    devices_low = tt;
    memory_low = omega arith;
  };
  enough = rw tables (omega (arith, spare));
  aligned = refl;
  from = omega arith;
  upto = omega arith;
}

in_ram : IsInRam ram (ram + 4096) 10 informed
in_ram = record {
  in_bitmap = omega arith;
  in_ram = omega arith;
  frames = frame_layout;
  kernel_in = omega arith;
  dtb_in = omega arith;
  enough =
      rw tables (omega (arith, free_frames-ge 1 9 (boot_bitmap ram (ram + 4096) informed) free));
  low = omega arith;
}

kernel_init-IsHandedOver_example :
    Returns
      (λ _ s'.
        IsHandedOver (placed ram (ram + 4096) informed) s'
        × Returns
            (λ _ s2. IsHigh (placed ram (ram + 4096) informed) (current (through s')) s2)
            (unmap_lower_half_kernel (through s')))
      (kernel_init out 9 ram (ram + 4096) 0x80000100 0x80000800 (ram + 64) ram fresh)
kernel_init-IsHandedOver_example =
    kernel_init-IsHandedOver out 9 ram (ram + 4096) 0x80000100 0x80000800 (ram + 64) ram 10 fresh
      informed (negsuc 0) no_tree bootable in_ram
