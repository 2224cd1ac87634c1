-- ===== src/Page/Boot.antt =====
-- The boot-time loops of src/page.c: the kernel, the devices and all of memory are mapped into a
-- new table, and `satp` is pointed at it; later the kernel's lower pages are unmapped.
use fifth_kernel.Base.{
  ℕ, zero, suc, ◌+◌, ◌-◌, ◌*◌, ◌/◌, ◌^◌, bit_or, ◌&&◌, ◌==◌, if◌then◌else◌, List, [], ◌∷◌,
}
use fifth_kernel.Machine.{Machine, Cmd, pure, ◌>>=◌, ◌>>◌, get, modify, printf, u64, Location}
use fifth_kernel.Page.{current_pt, allocate_new_page_table, map_page, unmap_page}
use fifth_kernel.Page.MapType

-- `for (page = …; …; page++)` with `left` rounds to go.
unfoldable pub for_pages : (left page : ℕ) → (ℕ → Cmd (Unit {0})) → Cmd (Unit {0})
for_pages zero page body = pure tt
for_pages (suc left) page body = body page >> for_pages left (page + 1) body

-- A call whose `int` result is not read.
abbrev pub ignore : {A : Type 0} → Cmd A → Cmd (Unit {0})
ignore m = m >>= λ _. pure tt

unfoldable pub identity_map_memory : (table page_offset : ℕ) → Cmd (Unit {0})
identity_map_memory table page_offset s =
    let first = s.device.ram_start / 4096 in
    let past = u64 (s.device.ram_start + s.device.ram_size) / 4096 in
    for_pages (past - first) first
      (λ i. ignore (map_page table i (u64 (page_offset + i)) MapType.page)) s

abbrev pub kernel_start_page : Machine → ℕ
kernel_start_page s = s.kernel_start_addr / 4096

abbrev pub kernel_end_page : Machine → ℕ
kernel_end_page s = u64 (s.kernel_end_addr + 4095) / 4096

-- Both loops over the kernel's pages run up to the end page itself.
unfoldable pub unmap_lower_half_kernel : Cmd (Unit {0})
unmap_lower_half_kernel = do
  pt ← current_pt
  s ← get
  for_pages (kernel_end_page s + 1 - kernel_start_page s) (kernel_start_page s)
      (λ page. ignore (unmap_page pt page MapType.page))

-- The body of the loop over the kernel's pages.
unfoldable pub map_kernel_page : (pt start page : ℕ) → Cmd (Unit {0})
map_kernel_page pt start page = do
  ignore (map_page pt page page MapType.page)
  ignore (map_page pt page (u64 (MapType.higher_half_vpn + page + 2 ^ 64 - start)) MapType.page)

unfoldable pub map_location : (pt : ℕ) → Location → Cmd (Unit {0})
map_location pt location =
    if location.address == 0 && location.size == 0
    then pure tt
    else let start_page = location.address / 4096 in
      let end_page = u64 (location.address + location.size + 4095) / 4096 in
      for_pages (end_page + 1 - start_page) start_page
        (λ page. ignore (map_page pt page page MapType.page))

unfoldable pub map_locations : (pt : ℕ) → List Location → Cmd (Unit {0})
map_locations pt [] = pure tt
map_locations pt (location ∷ rest) = map_location pt location >> map_locations pt rest

-- A write of `satp` is read back as written.
unfoldable pub enable_paging : Cmd (Unit {0})
enable_paging = do
  modify λ s. record s { ident_map_addr = 0 }
  pt ← allocate_new_page_table
  s ← get
  for_pages (kernel_end_page s + 1 - kernel_start_page s) (kernel_start_page s)
      (map_kernel_page pt (kernel_start_page s))
  map_locations pt s.device.mapped_locations
  identity_map_memory pt (MapType.higher_half_vpn + 1024 * 1024)
  modify λ s. record s { csr = record s.csr { satp = bit_or (pt / 4096) MapType.paging_mode_sv39 } }
  s ← get
  printf "satp: %#zx\n" (s.csr.satp ∷ [])
  modify λ s. record s { ident_map_addr = MapType.ident_map_addr }
