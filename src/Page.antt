-- ===== src/Page.antt =====
-- src/page.h and src/page.c: Sv39 page tables in memory. A table is the address of its 512 entries
-- of eight bytes; `table[i]` is the entry at `table + 8 * i`. The functions run in the address space
-- in which `ident_map_addr` is the address of physical address 0.
pub mod Entry
pub mod MapType
pub mod Err
pub mod Walk
pub mod Tree
pub mod Update
pub mod Rewrite
pub mod Link
pub mod NewTable
pub mod Grow
pub mod Footprint
pub mod Paged
pub mod Spares
pub mod Beside
pub mod Kept
pub mod Level
pub mod Descend
pub mod Map
pub mod UnmapLevel
pub mod Unmap
pub mod RoundTrip
pub mod Gigapage
pub mod Megapage
pub mod MegapageUnmap
pub mod Group
pub mod Sequence
pub mod Requests
pub mod MapAll
pub mod BootList
pub mod Fresh
pub mod Fill
pub mod Enable
pub mod Translated
pub mod Small
pub mod Maps
pub mod BootSpace
pub mod Asked
pub mod Through
pub mod Shifted
pub mod Handover
pub mod Allocate
pub mod FirstPage
pub mod LowerHalf
pub mod AllocatePage
pub mod Boot
use fifth_kernel.Base.{
  ℕ, zero, suc, ◌+◌, ◌-◌, ◌*◌, ◌/◌, ◌%◌, ◌^◌, bit_and, bit_or, ℤ, pos, negsuc, Bool, true, false,
  not, ◌&&◌, ◌||◌, Option, none, some, ◌==◌, ltb, if◌then◌else◌, List, [], ◌∷◌,
}
use fifth_kernel.Mem.{memset}
use fifth_kernel.Frame.{
  allocate_frame, allocate_first_frame, first_free_frame, deallocate_frame, frame_to_phys_addr,
}
use fifth_kernel.Machine.{
  Machine, Run, done, fault, Cmd, pure, and_then, ◌>>=◌, ◌>>◌, get, modify, printf, u64, Location,
  DeviceInformation, Csr,
}
use fifth_kernel.Page.Entry.{Pte, decode, load_pte, store_pte}
use fifth_kernel.Page.MapType
use fifth_kernel.Page.Err

-- `csr_read("satp", satp)`, then the page number in it as an address. The product drops the mode
-- bits at the top.
unfoldable pub current_pt : Cmd ℕ
current_pt s = done (u64 (s.csr.satp * 4096 + s.ident_map_addr)) s

-- The result of the search for a free frame that runs past the bitmap is a fault.
unfoldable pub allocate_new_page_table : Cmd ℕ
allocate_new_page_table s = elim (allocate_first_frame s.frames) [
  | none ↦ fault
  | some (frames, frame) ↦
      let pt = u64 (s.device.ram_start + 4096 * frame + s.ident_map_addr) in
      done pt (record s { frames = frames; memory = memset s.memory pt 0 4096 })
]

-- One entry of a table of gigapages.
unfoldable pub ident_entry : Pte → ℕ → Pte
ident_entry e i = record e { r = 1; w = 1; x = 1; v = 1; ppn = MapType.gigapage_align * i % 2 ^ 44 }

-- The loop of `create_ident_map_page_table` at index `i` with `left` rounds to go.
unfoldable pub ident_loop : (left table i : ℕ) → Cmd (Unit {0})
ident_loop zero table i = pure tt
ident_loop (suc left) table i = do
  modify λ s. record s {
    memory = store_pte s.memory (table + 8 * i) (ident_entry (load_pte s.memory (table + 8 * i)) i);
  }
  ident_loop left table (i + 1)

unfoldable pub create_ident_map_page_table : (table : ℕ) → Cmd (Unit {0})
create_ident_map_page_table table = ident_loop 512 table 0

-- `vpn_arr[i]`; any other index is out of range.
unfoldable pub vpn_arr : (vpn i : ℕ) → Option ℕ
vpn_arr vpn zero = some (bit_and vpn 0x1FF)
vpn_arr vpn (suc zero) = some (bit_and (vpn / 2 ^ 9) 0x1FF)
vpn_arr vpn (suc (suc zero)) = some (bit_and (vpn / 2 ^ 18) 0x1FF)
vpn_arr vpn (suc (suc (suc i))) = none

abbrev pub read_entry : ℕ → Cmd Pte
read_entry entry s = done (load_pte s.memory entry) s

abbrev pub write_entry : ℕ → Pte → Cmd (Unit {0})
write_entry entry e s = done tt (record s { memory = store_pte s.memory entry e })

-- `(void*)(entry->ppn * 4096 + ident_map_addr)`
abbrev pub table_of : (ident_map_addr : ℕ) → Pte → ℕ
table_of ident_map_addr e = u64 (e.ppn * 4096 + ident_map_addr)

abbrev pub next_table : ℕ → Cmd ℕ
next_table entry s = done (table_of s.ident_map_addr (load_pte s.memory entry)) s

-- `entry.r || entry.w || entry.x`
abbrev pub is_leaf : Pte → Bool
is_leaf e = not (e.r == 0) || not (e.w == 0) || not (e.x == 0)

-- The loop reaches a table or returns early.
pub data Descent : Type 0 where
  at : ℕ → Descent
  stop : ℤ → Descent

-- `entry.ppn = ((size_t)allocate_new_page_table() - ident_map_addr) / 4096`: the call comes first,
-- then the bit-field is written into the entry as it then stands.
unfoldable pub link_new_table : (entry : ℕ) → Cmd (Unit {0})
link_new_table entry = do
  pt ← allocate_new_page_table
  modify λ s. record s {
    memory = store_pte s.memory entry (record (load_pte s.memory entry) {
      ppn = (pt + 2 ^ 64 - s.ident_map_addr) % 2 ^ 64 / 4096 % 2 ^ 44;
    });
  }

-- The body of the loop of `map_page` at one entry.
unfoldable pub map_level : (entry : ℕ) → Cmd Descent
map_level entry = do
  e ← read_entry entry
  if e.v == 0
      then (do
        write_entry entry (record e { v = 1; r = 0; w = 0; x = 0 })
        link_new_table entry
        table ← next_table entry
        pure (at table))
      else if is_leaf e
      then pure (stop Err.already_mapped)
      else (do table ← next_table entry; pure (at table))

-- The loop `for (map_t i = type - 1; i > 0; i--)`, over either function's body.
unfoldable pub descend : (body : ℕ → Cmd Descent) (i vpn table : ℕ) → Cmd Descent
descend body zero vpn table = pure (at table)
descend body (suc i) vpn table = elim (vpn_arr vpn (suc i)) [
  | none ↦ λ s. fault
  | some index ↦ do
    walk ← body (table + 8 * index)
    elim walk [ stop err ↦ pure (stop err) | at table' ↦ descend body i vpn table' ]
]

-- `type - 1` and `3 - type` on `unsigned int`
abbrev pub sub_u32 : ℕ → ℕ → ℕ
sub_u32 a b = (a + 2 ^ 32 - b) % 2 ^ 32

abbrev pub sfence_vma : Cmd (Unit {0})
sfence_vma = modify λ s. record s { flushes = s.flushes + 1 }

-- The entry at the end of the walk.
unfoldable pub map_entry : (ppn entry : ℕ) → Cmd ℤ
map_entry ppn entry = do
  e ← read_entry entry
  if not (e.v == 0) then pure Err.already_mapped else (do
    write_entry entry (record e { r = 1; w = 1; x = 1; v = 1; ppn = ppn % 2 ^ 44 })
    sfence_vma
    pure Err.success)

unfoldable pub unmap_entry : (entry : ℕ) → Cmd ℤ
unmap_entry entry = do
  e ← read_entry entry
  if e.v == 0 then pure Err.not_mapped else (do
    modify λ s. record s { memory = memset s.memory entry 0 8 }
    sfence_vma
    pure Err.success)

-- What follows the loop: the result of an early return, or the work at `table[vpn_arr[3 - type]]`.
unfoldable pub arrive : (final : ℕ → Cmd ℤ) (vpn type : ℕ) → Descent → Cmd ℤ
arrive final vpn type (stop err) = pure err
arrive final vpn type (at table) = elim (vpn_arr vpn (sub_u32 3 type)) [
  | none ↦ λ s. fault
  | some index ↦ final (table + 8 * index)
]

-- The walk of either function from a table, and its work at the entry that the walk leads to.
unfoldable pub walk_to : (body : ℕ → Cmd Descent) (final : ℕ → Cmd ℤ) (table vpn type : ℕ) → Cmd ℤ
walk_to body final table vpn type = do
  walk ← descend body (sub_u32 type 1) vpn table
  arrive final vpn type walk

-- `if (table == nullptr) table = current_pt();`
unfoldable pub resolve : (table : ℕ) → Cmd ℕ
resolve table = if table == 0 then current_pt else pure table

abbrev pub misaligned : (align number : ℕ) → Bool
misaligned align number = not (number % align == 0)

unfoldable pub map_page : (table ppn vpn type : ℕ) → Cmd ℤ
map_page table ppn vpn type =
    if type == MapType.gigapage
      && (misaligned MapType.gigapage_align ppn || misaligned MapType.gigapage_align vpn)
    then pure Err.align
    else if type == MapType.megapage
        && (misaligned MapType.megapage_align ppn || misaligned MapType.megapage_align vpn)
    then pure Err.align
    else (do
      table' ← resolve table
      if table' == 0 then pure Err.null_pt else walk_to map_level (map_entry ppn) table' vpn type)

-- The body of the loop of `unmap_page` at one entry.
unfoldable pub unmap_level : (entry : ℕ) → Cmd Descent
unmap_level entry = do
  e ← read_entry entry
  if e.v == 0
      then pure (stop Err.not_mapped)
      else if is_leaf e
      then pure (stop Err.incorrect_map_type)
      else (do table ← next_table entry; pure (at table))

unfoldable pub unmap_page : (table vpn type : ℕ) → Cmd ℤ
unmap_page table vpn type =
    if type == MapType.gigapage && misaligned MapType.gigapage_align vpn
    then pure Err.align
    else if type == MapType.megapage && misaligned MapType.megapage_align vpn
    then pure Err.align
    else (do
      table' ← resolve table
      if table' == 0 then pure Err.null_pt else walk_to unmap_level unmap_entry table' vpn type)
