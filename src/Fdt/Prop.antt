-- ===== src/Fdt/Prop.antt =====
-- The case FDT_PROP of `parse_dt_struct` in src/fdt.c.
use fifth_kernel.Base.{
  ℕ, zero, suc, ◌+◌, ◌-◌, ◌*◌, ◌/◌, ◌%◌, ◌^◌, ◌==◌, not, Bool, false, ◌&&◌, leb, if◌then◌else◌,
  List, [], ◌∷◌, ℤ, pos, negsuc, Option, none, some, set,
}
use fifth_kernel.Memory.{Memory, load}
use fifth_kernel.Machine.{
  Location, done, fault, out_of_fuel, Cmd, pure, ◌>>=◌, ◌>>◌, get, modify, printf, u64,
}
use fifth_kernel.CString.{strcmp, strncmp}
use fifth_kernel.Fdt.{swapb, swapb64, align32, print_tabs, Parser, Outside}

abbrev pub is_zero : ℤ → Bool
is_zero (pos n) = n == 0
is_zero (negsuc n) = false

-- `strcmp(a, b) == 0`
unfoldable pub equal_strings : (fuel a b : ℕ) → Cmd Bool
equal_strings fuel a b s = elim (strcmp fuel s.memory a b) [
  | none ↦ out_of_fuel
  | some order ↦ done (is_zero order) s
]

-- `for (i = …; i < ranges*4; i++)` with `left` rounds to go.
unfoldable pub print_words : (left i ptr : ℕ) → Cmd (Unit {0})
print_words zero i ptr = pure tt
print_words (suc left) i ptr = do
  if i == 0 then pure tt else printf " " []
  s ← get
  printf "%#x" (swapb (load 4 s.memory (ptr + 4 * i)) ∷ [])
  print_words left (i + 1) ptr

-- The index of the first unused element of `mapped_locations`.
unfoldable pub free_location : List Location → (j : ℕ) → Option ℕ
free_location [] j = none
free_location (l ∷ rest) j =
    let later = free_location rest (j + 1) in
    if l.size == 0 && l.address == 0 then some j else later

-- The address alone is written where the node has no size cells.
unfoldable pub location_at : Memory → (ptr i size_cells : ℕ) → Location
location_at m ptr i size_cells =
    if size_cells == 0
    then record { address = swapb64 (load 8 m (ptr + 8 * i)); size = 0 }
    else record {
      address = swapb64 (load 8 m (ptr + 16 * i));
      size = swapb64 (load 8 m (ptr + 16 * i + 8));
    }

-- The loop over the ranges, with `left` rounds to go.
unfoldable pub map_ranges : (left i ptr size_cells : ℕ) → Cmd (Unit {0})
map_ranges zero i ptr size_cells s = done tt s
map_ranges (suc left) i ptr size_cells s = elim (free_location s.device.mapped_locations 0) [
  | none ↦ done tt s
  | some free_map ↦ map_ranges left (i + 1) ptr size_cells (record s {
    device = record s.device {
      mapped_locations =
          set s.device.mapped_locations free_map (location_at s.memory ptr i size_cells);
    };
  })
]

-- The registers of a device: their words are printed, and its ranges recorded. A sum of cells that
-- is zero is divided by, and `ranges*4` is an `int`.
unfoldable pub reg_prop : (len ptr address_cells size_cells : ℕ) → Cmd (Unit {0})
reg_prop len ptr address_cells size_cells =
    let cells = (size_cells + address_cells) % 2 ^ 32 in
    let ranges = len / 4 / cells in
    if cells == 0
    then (λ s. fault)
    else if leb (2 ^ 31) (ranges * 4)
    then (λ s. fault)
    else (printf "<" []
        >> print_words (ranges * 4) 0 ptr
        >> printf ">" []
        >> map_ranges ranges 0 ptr size_cells)

unfoldable pub memory_prop : (ptr : ℕ) → Cmd (Unit {0})
memory_prop ptr = modify λ s. record s {
  device = record s.device {
    ram_start = swapb64 (load 8 s.memory ptr);
    ram_size = swapb64 (load 8 s.memory (ptr + 8));
  };
}

-- `for (i = …; i < len; i++) printf("%c", ptr[i])` with `left` rounds to go.
unfoldable pub print_chars : (left i ptr : ℕ) → Cmd (Unit {0})
print_chars zero i ptr = pure tt
print_chars (suc left) i ptr = do
  s ← get
  printf "%c" (s.memory (ptr + i) ∷ [])
  print_chars left (i + 1) ptr

-- A table of cells, from the node's own index on.
abbrev pub fill_from : (index value : ℕ) → (ℕ → ℕ) → ℕ → ℕ
fill_from index value cells = λ i. if leb index i then value else cells i

-- A property by its name; the index of its node is in range.
unfoldable pub prop_value : Outside → (fuel name len index : ℕ) → Parser → Cmd Parser
prop_value out fuel name len index p = do
  s ← get
  let node = p.node_arr index
  let is_cpu = is_zero (strncmp s.memory node out.cpu 3)
  let is_memory = is_zero (strncmp s.memory node out.memory 6)
  let value = swapb (load 4 s.memory p.ptr)
  is_reg ← equal_strings fuel name out.reg
  if is_reg && not is_cpu && not is_memory
      then (reg_prop len p.ptr (p.address_cells_arr index) (p.size_cells_arr index) >> pure p)
      else if is_reg && is_memory
      then (memory_prop p.ptr >> pure p)
      else (do
        is_address ← equal_strings fuel name out.address_cells
        if is_address
            then (do
              printf "%d" (value ∷ [])
              pure (record p { address_cells_arr = fill_from index value p.address_cells_arr }))
            else (do
              is_size ← equal_strings fuel name out.size_cells
              if is_size
                  then (do
                    printf "%d" (value ∷ [])
                    pure (record p { size_cells_arr = fill_from index value p.size_cells_arr }))
                  else (print_chars len 0 p.ptr >> pure p)))

-- The same where the node's index is out of range: the properties that are read or written by the
-- index have no meaning, the others are printed.
unfoldable pub prop_nowhere : Outside → (fuel name len : ℕ) → Parser → Cmd Parser
prop_nowhere out fuel name len p = do
  is_reg ← equal_strings fuel name out.reg
  if is_reg then (λ s. fault) else (do
    is_address ← equal_strings fuel name out.address_cells
    if is_address then (λ s. fault) else (do
      is_size ← equal_strings fuel name out.size_cells
      if is_size then (λ s. fault) else (print_chars len 0 p.ptr >> pure p)))

-- `node_index` is an index of the arrays.
abbrev pub in_arrays : Parser → Bool
in_arrays p = leb 1 p.depth && leb p.depth 32

-- The case FDT_PROP.
unfoldable pub parse_prop : Outside → (fuel strings : ℕ) → Parser → Cmd Parser
parse_prop out fuel strings p = do
  s ← get
  let len = swapb (load 4 s.memory p.ptr)
  let name = u64 (strings + swapb (load 4 s.memory (p.ptr + 4)))
  let p' = record p { ptr = u64 (p.ptr + 8) }
  print_tabs p.tabs
  printf "FDT_PROP: (%d) %s = " (len ∷ name ∷ [])
  p'' ←
      if in_arrays p'
      then prop_value out fuel name len (p'.depth - 1) p'
      else prop_nowhere out fuel name len p'
  printf "\n" []
  pure (record p'' { ptr = align32 (u64 (p''.ptr + len)) })
