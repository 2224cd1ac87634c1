-- ===== src/Fdt/Parse.antt =====
-- The loop of `parse_dt_struct`, and `print_fdt_info`, in src/fdt.c.
use fifth_kernel.Base.{
  ℕ, zero, suc, ◌+◌, ◌-◌, ◌*◌, ◌==◌, not, ◌||◌, leb, if◌then◌else◌, [], ◌∷◌, ℤ, pos, negsuc,
}
use fifth_kernel.Memory.{Memory, load}
use fifth_kernel.Machine.{
  done, fault, out_of_fuel, Cmd, pure, ◌>>=◌, ◌>>◌, get, modify, printf, u64,
}
use fifth_kernel.Fdt.{swapb, align32, print_tabs, inc, dec, Parser, Outside, start}
use fifth_kernel.Fdt.Prop.{fill_from, parse_prop}

-- The case FDT_BEGIN_NODE.
unfoldable pub begin_node : Outside → Parser → Cmd Parser
begin_node out p = do
  s ← get
  let length = out.sprintf_length s.memory p.ptr
  print_tabs p.tabs
  printf "FDT_BEGIN_NODE: %s (%zd)\n" (p.ptr ∷ length ∷ [])
  if leb 32 p.depth
      then (λ s. fault)
      else pure (record p {
        ptr = align32 (u64 (p.ptr + length + 1));
        node_arr = λ i. if i == p.depth then p.ptr else p.node_arr i;
        depth = p.depth + 1;
        tabs = inc p.tabs;
      })

-- What a table of cells holds for the parent, whose index is `depth - 1`.
abbrev pub parent_cells : (before : ℕ) → (ℕ → ℕ) → (depth : ℕ) → ℕ
parent_cells before cells zero = before
parent_cells before cells (suc index) = cells index

-- The case FDT_END_NODE; a tree that ends more nodes than it began is reported.
unfoldable pub end_node : Outside → Parser → Cmd Parser
end_node out p = do
  let tabs = dec p.tabs
  let depth = p.depth - 1
  print_tabs tabs
  printf "FDT_END_NODE\n" []
  if p.depth == 0 then printf "Warning: Device tree seems to be corrupted\n" [] else pure tt
  pure (record p {
    tabs = tabs;
    depth = depth;
    address_cells_arr =
        fill_from depth (parent_cells out.address_before p.address_cells_arr depth)
          p.address_cells_arr;
    size_cells_arr =
        fill_from depth (parent_cells out.size_before p.size_cells_arr depth) p.size_cells_arr;
  })

-- The case FDT_END.
unfoldable pub end_tree : Parser → Cmd (Unit {0})
end_tree p = do
  print_tabs p.tabs
  printf "FDT_END\n" []
  if p.depth == 0 then pure tt else printf "Warning: unexpected FDT_END\n" []

-- A token that says nothing: FDT_NOP, or a word that is no token.
unfoldable pub other_token : (token : ℕ) → Parser → Cmd Parser
other_token token p = do
  print_tabs p.tabs
  if token == 4 then printf "FDT_NOP\n" [] else printf "Not a token: %d\n" (token ∷ [])
  pure p

-- The switch, but for FDT_END.
unfoldable pub parse_token : Outside → (fuel strings token : ℕ) → Parser → Cmd Parser
parse_token out fuel strings token p =
    if token == 1
    then begin_node out p
    else if token == 2
    then end_node out p
    else if token == 3
    then parse_prop out fuel strings p
    else other_token token p

-- The loop; FDT_END leaves it.
unfoldable pub parse_loop : Outside → (fuel strings : ℕ) → Parser → Cmd (Unit {0})
parse_loop out zero strings p s = out_of_fuel
parse_loop out (suc fuel) strings p s =
    let token = swapb (load 4 s.memory p.ptr) in
    let p' = record p { ptr = u64 (p.ptr + 4) } in
    let rest = parse_loop out fuel strings in
    if token == 9 then end_tree p' s else (parse_token out fuel strings token p' >>= rest) s

abbrev pub parse_dt_struct : Outside → (fuel ptr strings : ℕ) → Cmd (Unit {0})
parse_dt_struct out fuel ptr strings = parse_loop out fuel strings (start ptr)

-- A field of `struct fdt_header`, read.
abbrev pub header_field : Memory → (header offset : ℕ) → ℕ
header_field m header offset = swapb (load 4 m (header + offset))

-- The loop over the reserved blocks, with the index at which it ends.
unfoldable pub print_blocks : (fuel i blocks : ℕ) → Cmd ℕ
print_blocks zero i blocks s = out_of_fuel
print_blocks (suc fuel) i blocks s =
    let address = load 8 s.memory (blocks + 16 * i) in
    let size = load 8 s.memory (blocks + 16 * i + 8) in
    let rest = print_blocks fuel (i + 1) blocks in
    if size == 0 || address == 0
    then done i s
    else (printf "Memory block %zd: 0x%p-0x%p\n" (i ∷ address ∷ u64 (address + size) ∷ []) >> rest)
        s

unfoldable pub print_header_fields : (header : ℕ) → Cmd (Unit {0})
print_header_fields header = do
  s ← get
  printf "fdt_header->totalsize: %#x\n" (header_field s.memory header 4 ∷ [])
  printf "fdt_header->off_dt_struct: %#x\n" (header_field s.memory header 8 ∷ [])
  printf "fdt_header->off_dt_strings: %#x\n" (header_field s.memory header 12 ∷ [])
  printf "fdt_header->off_mem_rsvmap: %#x\n" (header_field s.memory header 16 ∷ [])
  printf "fdt_header->version: %#x\n" (header_field s.memory header 20 ∷ [])
  printf "fdt_header->last_comp_version: %#x\n" (header_field s.memory header 24 ∷ [])
  printf "fdt_header->boot_cpuid_phys: %#x\n" (header_field s.memory header 28 ∷ [])
  printf "fdt_header->size_dt_strings: %#x\n" (header_field s.memory header 32 ∷ [])
  printf "fdt_header->size_dt_struct: %#x\n" (header_field s.memory header 36 ∷ [])

-- `print_fdt_info` for a header with the right magic number.
unfoldable pub read_tree : Outside → (fuel header : ℕ) → Cmd ℤ
read_tree out fuel header = do
  print_header_fields header
  modify λ s. record s {
    device = record s.device { dtb = header; dtb_size = header_field s.memory header 4 };
  }
  s ← get
  i ← print_blocks fuel 0 (u64 (header + header_field s.memory header 16))
  if i == 0 then printf "No reserved memory blocks in dtb\n" [] else pure tt
  parse_dt_struct out fuel (u64 (header + header_field s.memory header 8))
      (u64 (header + header_field s.memory header 12))
  pure (pos 1)

unfoldable pub print_fdt_info : Outside → (fuel header : ℕ) → Cmd ℤ
print_fdt_info out fuel header = do
  printf "fdt_header: %p\n" (header ∷ [])
  s ← get
  let magic = header_field s.memory header 0
  printf "fdt_header->magic: %#x\n" (magic ∷ [])
  if not (magic == 0xd00dfeed)
      then (printf "invalid dtb header\n" [] >> pure (negsuc 0))
      else read_tree out fuel header
