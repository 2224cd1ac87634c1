-- ===== src/Tests/Whole.antt =====
-- `kernel_init` of src/main.c on a kernel of two pages, the second its trap stack, and a device tree that tells the range of memory.
use fifth_kernel.Base.{
  ℕ, zero, suc, ◌+◌, ◌-◌, ◌*◌, ◌≤◌, ◌<◌, ◌≡◌, refl, arith, List, [], ◌∷◌, Bool, true, false, ◌&&◌,
  ltb, get_elem?, inr,
}
use fifth_kernel.Frame.Bitmap.{allocated}
use fifth_kernel.Frame.Free.{free_frames, free_frames-ge}
use fifth_kernel.Frame.Range
use fifth_kernel.Frame.Range.{init_frames_lem}
use fifth_kernel.Machine.{Machine}
use fifth_kernel.Machine.Returns.{Returns}
use fifth_kernel.Page.Walk.{prefix}
use fifth_kernel.Page.Requests.{new_tables}
use fifth_kernel.Page.BootList.{pages_of, locations_pages}
use fifth_kernel.Page.Fill.{boot_requests}
use fifth_kernel.Fdt.{swapb}
use fifth_kernel.Memory.{load}
use fifth_kernel.Fdt.Facts.{memory_at}
use fifth_kernel.Fdt.Walk.{facts}
use fifth_kernel.Page.Through.{through}
use fifth_kernel.Main.{kernel_init, setup_post_relocation}
use fifth_kernel.Main.Arrival.{IsReady, kernel_init-Arrives}
use fifth_kernel.Main.Landing.{higher, IsImage}
use fifth_kernel.Main.Placed.{placed, boot_bitmap, IsBootable}
use fifth_kernel.Main.Handover.{IsInRam}
use fifth_kernel.Main.Tree.{aware, Boots, kernel_init-Boots}
use fifth_kernel.Tests.Values.{ram, one_frame, one_frame-IsBitmap, paged-IsRange, free_frames-le}
use fifth_kernel.Tests.Tree.{header, out, with_tree, tree, told_range, tree_bytes, or_zero}

-- What the tree tells.
abbrev known : Machine
known = aware header (memory_at ram 0xC000 ∷ []) with_tree

tree_size : known.device.dtb_size ≡ 104
unfolding swapb load
tree_size = refl

frame_layout : Range.IsLayout ram (ram + 8192) ram header known.device.dtb_size
frame_layout = rw tree_size record {
  kernel_in = omega arith;
  kernel_order = omega arith;
  kernel_end = omega arith;
  dtb_in = omega arith;
  dtb_end = omega arith;
}

free : (f : ℕ) → 3 ≤ f → f < 3 + 9 → allocated (boot_bitmap ram (ram + 8192) known) f ≡ false
free f lo hi = ground (
  arith,
  init_frames_lem one_frame ram (ram + 8192) ram header known.device.dtb_size f one_frame-IsBitmap
      frame_layout (omega arith),
  tree_size,
)

spare : 9 ≤ free_frames 12 (boot_bitmap ram (ram + 8192) known)
spare = free_frames-ge 3 9 (boot_bitmap ram (ram + 8192) known) free

tables : new_tables [] (boot_requests (placed ram (ram + 8192) known)) ≡ 3
unfolding new_tables pages_of locations_pages prefix
tables = refl

bootable : IsBootable ram (ram + 8192) (ram + 64) known
bootable = record {
  bitmap = one_frame-IsBitmap;
  range = paged-IsRange;
  above = omega arith;
  layout = record {
    kernel_low = omega arith;
    kernel_small = omega arith;
    devices_low = tt;
    memory_low = omega arith;
  };
  enough =
      rw tables
        (omega (arith, spare, free_frames-le 262132 12 (boot_bitmap ram (ram + 8192) known)));
  aligned = refl;
  from = omega arith;
  upto = omega arith;
}

in_ram : IsInRam ram (ram + 8192) 12 known
in_ram = record {
  in_bitmap = omega arith;
  in_ram = omega arith;
  frames = frame_layout;
  kernel_in = omega arith;
  dtb_in = rw tree_size (omega arith);
  enough = rw tables (omega (arith, spare));
  low = omega arith;
}

kernel_init-Boots_example :
    Returns
      (Boots ram
        (ram + 8192)
        0x80000100
        0x80001000
        (ram + 64)
        (aware header (facts tree.block) with_tree))
      (kernel_init out 8 ram (ram + 8192) 0x80000100 0x80001000 (ram + 64) header with_tree)
kernel_init-Boots_example =
    kernel_init-Boots out 8 ram (ram + 8192) 0x80000100 0x80001000 (ram + 64) header 12 with_tree 4
      0 4 tree (omega arith) (omega arith) (rw told_range bootable) (rw told_range in_ram)
      (rw told_range refl) (rw told_range refl)

are_bytes : List ℕ → Bool
are_bytes [] = true
are_bytes (x ∷ rest) = ltb x 256 && are_bytes rest

element_small : (xs : List ℕ) (i : ℕ) → are_bytes xs ≡ true → or_zero (get_elem? xs i) < 256
unfolding are_bytes
element_small [] i h = omega arith
element_small (x ∷ rest) zero h = ground (arith, h)
element_small (x ∷ rest) (suc i) h = element_small rest i (ground (arith, h))

-- The kernel's pages are zeros: there are no pointers to relocate, and no file to report.
image : IsImage ram (ram + 8192) (ram + 4096) (ram + 8) 2 (ram + 64) with_tree.memory
unfolding load are_bytes
image = record {
  stack_from = omega arith;
  stack_upto = omega arith;
  bytes = λ a. ground (
    arith,
    element_small tree_bytes (a - header) refl,
    element_small (0x6d ∷ 0x65 ∷ 0x6d ∷ 0x6f ∷ 0x72 ∷ 0x79 ∷ []) (a - 0x120) refl,
    element_small (0x72 ∷ 0x65 ∷ 0x67 ∷ []) (a - 0x100) refl,
  );
  rodata_from = omega arith;
  rodata_upto = omega arith;
  program_from = omega arith;
  program_upto = omega arith;
  apart = inr (omega arith);
  small = record { sections = omega arith; segments = omega arith };
}

kernel_init-Arrives_example :
    Returns
      (λ j s'.
        Returns
          (λ _ s2.
            IsReady
              (λ r. r)
              (λ r. refl)
              (higher ram (0x80001000 + 4096))
              (placed ram (ram + 8192) (aware header (facts tree.block) with_tree))
              j.a0
              (through s')
              s2)
          (setup_post_relocation j.a0
            (higher ram (ram + 8))
            (higher ram (ram + 8) + 8 * 2)
            (higher ram (ram + 64))
            0
            (through s')))
      (kernel_init out 8 ram (ram + 8192) 0x80000100 0x80001000 (ram + 64) header with_tree)
kernel_init-Arrives_example =
    kernel_init-Arrives out 8 ram (ram + 8192) 0x80000100 0x80001000 (ram + 64) header 12 (ram + 8)
      2 (ram + 64) 0 (λ r. r) (λ r. refl) with_tree 4 0 4 tree (omega arith) (omega arith)
      (rw told_range bootable) (rw told_range in_ram) (rw told_range refl) (rw told_range refl)
      image
