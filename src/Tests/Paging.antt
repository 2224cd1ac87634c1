-- ===== src/Tests/Paging.antt =====
-- `enable_paging` of src/page.c on a machine with two pages of memory, all of it the kernel, and one device.
use fifth_kernel.Page.MapType
use fifth_kernel.Page.Err
use fifth_kernel.Page.{resolve, map_page, unmap_page}
use fifth_kernel.Page.Gigapage.{
  giga_misaligned, Entered, Removed, map_page-Entered, unmap_page-Removed,
}
use fifth_kernel.Page.LowerHalf.{IsCleared, unmap_lower_half_kernel-IsCleared}
use fifth_kernel.Page.Allocate.{allocate_a_page}
use fifth_kernel.Page.AllocatePage.{Outcome, allocate_a_page-Outcome}
use fifth_kernel.Page.FirstPage.{current}
use fifth_kernel.Page.Paged.{IsPaged, page_leaf}
use fifth_kernel.Page.Walk.{prefix}
use fifth_kernel.Base.{◌+◌, ◌≡◌, refl, arith, [], ◌∷◌, ◌^◌, ◌||◌, ◌⊎◌, true, false, some}
use fifth_kernel.Machine.{Machine, Location, done}
use fifth_kernel.Machine.Returns.{Returns}
use fifth_kernel.Page.Boot.{enable_paging, unmap_lower_half_kernel}
use fifth_kernel.Page.Requests.{AreSmall, new_tables}
use fifth_kernel.Page.BootList.{pages_of, locations_pages}
use fifth_kernel.Page.Asked.{IsBuilt, enable_paging-IsBuilt}
use fifth_kernel.Page.BootSpace.{boot_space}
use fifth_kernel.Page.Fill.{boot_requests}
use fifth_kernel.Page.Translated.{IsLayout}
use fifth_kernel.Tests.Values.{
  ram, paged, one_frame-IsBitmap, paged-IsRange, paged-spare, machine, no_csr, zeros, places,
  paged-IsTree, paged-IsPaged,
}

abbrev uart : Location
uart = record { address = 0x10000000; size = 0x100 }

abbrev booting : Machine
booting = record paged {
  kernel_start_addr = ram;
  kernel_end_addr = ram + 4096;
  device = record paged.device { ram_size = 8192; mapped_locations = uart ∷ [] };
}

booting-AreSmall : AreSmall (boot_requests booting)
unfolding pages_of locations_pages
booting-AreSmall = (
  omega arith,
  (
    omega arith,
    (omega arith, (omega arith, (omega arith, (omega arith, (omega arith, (omega arith, tt)))))),
  ),
)

booting-new_tables : new_tables [] (boot_requests booting) ≡ 4
unfolding new_tables pages_of locations_pages prefix
booting-new_tables = refl

booting-IsLayout : IsLayout booting
booting-IsLayout = record {
  kernel_low = omega arith;
  kernel_small = omega arith;
  devices_low = (omega arith, tt);
  memory_low = omega arith;
}

enable_paging-IsBuilt_example : Returns (λ _ s'. IsBuilt booting s') (enable_paging booting)
enable_paging-IsBuilt_example =
    enable_paging-IsBuilt booting one_frame-IsBitmap paged-IsRange (omega arith) booting-IsLayout
      (omega arith) (rw booting-new_tables (omega (arith, paged-spare)))

-- The kernel's page is seen in the higher half.
boot_space-test : boot_space booting (2 ^ 26) ≡ some (page_leaf 0x80000)
boot_space-test = refl

-- `satp` names the empty table in frame 0.
abbrev running : Machine
running = machine (record no_csr { satp = 2 ^ 63 + 0x80000 }) zeros

running-IsPaged : IsPaged places (current running) running
running-IsPaged = record { tree = paged-IsTree; bitmap = one_frame-IsBitmap; range = paged-IsRange }

allocate_a_page-Outcome_example : Returns (Outcome running) (allocate_a_page running)
allocate_a_page-Outcome_example =
    allocate_a_page-Outcome places running running-IsPaged (λ e. omega (arith, e))
      (omega (arith, paged-spare))

unmap_lower_half_kernel-IsCleared_example :
    Returns
      (λ _ s'. IsCleared (current running) 0x80000 0x80002 running s')
      (unmap_lower_half_kernel running)
unmap_lower_half_kernel-IsCleared_example =
    unmap_lower_half_kernel-IsCleared running places running-IsPaged (λ e. omega (arith, e))
      (omega arith) (omega arith)

given : resolve ram paged ≡ done ram paged
unfolding resolve
given = refl

map_page-Entered_example :
    Returns
      (λ code s'.
        (((giga_misaligned 0x80000 || giga_misaligned 0x40000) ≡ false)
          × Entered paged paged-IsPaged 0x40000 0x80000 code s')
        ⊎ (((giga_misaligned 0x80000 || giga_misaligned 0x40000) ≡ true)
            × (code ≡ Err.align)
            × (s' ≡ paged)))
      (map_page ram 0x80000 0x40000 MapType.gigapage paged)
map_page-Entered_example =
    map_page-Entered places ram ram 0x40000 paged paged-IsPaged given (λ e. omega (arith, e))
      0x80000

unmap_page-Removed_example :
    Returns
      (λ code s'.
        ((giga_misaligned 0x40000 ≡ false) × Removed paged paged-IsPaged 0x40000 code s')
        ⊎ ((giga_misaligned 0x40000 ≡ true) × (code ≡ Err.align) × (s' ≡ paged)))
      (unmap_page ram 0x40000 MapType.gigapage paged)
unmap_page-Removed_example =
    unmap_page-Removed places ram ram 0x40000 paged paged-IsPaged given (λ e. omega (arith, e))
