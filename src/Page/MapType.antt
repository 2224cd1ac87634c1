-- ===== src/Page/MapType.antt =====
-- The macros MAP_PAGE, MAP_MEGAPAGE and MAP_GIGAPAGE of src/page.h, their alignments in pages, and
-- the addresses of the higher half.
use fifth_kernel.Base.{ℕ, ◌+◌, ◌*◌, ◌^◌}

abbrev pub page : ℕ
page = 0b11

abbrev pub megapage : ℕ
megapage = 0b10

abbrev pub gigapage : ℕ
gigapage = 0b01

abbrev pub megapage_align : ℕ
megapage_align = 512

abbrev pub gigapage_align : ℕ
gigapage_align = 262144

-- PAGING_MODE_SV39
abbrev pub paging_mode_sv39 : ℕ
paging_mode_sv39 = 0b1000 * 2 ^ 60

abbrev pub higher_half_addr_start : ℕ
higher_half_addr_start = 0xFFFFFFC000000000

abbrev pub higher_half_vpn : ℕ
higher_half_vpn = 0x4000000

abbrev pub ident_map_addr : ℕ
ident_map_addr = higher_half_addr_start + 4 * 1024 * 1024 * 1024
