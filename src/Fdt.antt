-- ===== src/Fdt.antt =====
-- src/fdt.c: the walk over the device tree. `node_index` is kept as the depth, which is one more.
-- `sprintf` is a parameter, and so are the addresses of the string literals and the words that the
-- compiled code finds at index -1 of the two tables of cells.
pub mod Bytes
pub mod Prop
pub mod Parse
pub mod Cases
pub mod Locations
pub mod Facts
pub mod Recorded
pub mod Learns
pub mod Value
pub mod Property
pub mod Walk
pub mod Info
use fifth_kernel.Base.{
  ℕ, zero, suc, ◌+◌, ◌-◌, ◌*◌, ◌/◌, ◌%◌, ◌^◌, ◌==◌, not, Bool, ◌&&◌, if◌then◌else◌, List, [], ◌∷◌,
  ℤ, pos, negsuc,
}
use fifth_kernel.Machine.{Cmd, pure, and_then, ◌>>=◌, ◌>>◌, printf, u64}

-- `__builtin_bswap32` and `__builtin_bswap64`
unfoldable pub swapb : ℕ → ℕ
swapb n = n % 256 * 2 ^ 24 + n / 256 % 256 * 2 ^ 16 + n / 2 ^ 16 % 256 * 256 + n / 2 ^ 24 % 256

unfoldable pub swapb64 : ℕ → ℕ
unfolding swapb
swapb64 n = swapb (n % 2 ^ 32) * 2 ^ 32 + swapb (n / 2 ^ 32)

unfoldable pub align32 : ℕ → ℕ
align32 val = if not (val % 4 == 0) then u64 (val - val % 4 + 4) else val

unfoldable pub tabs_loop : (left : ℕ) → Cmd (Unit {0})
tabs_loop zero = pure tt
tabs_loop (suc left) = printf "\t" [] >> tabs_loop left

-- A negative count runs no round.
unfoldable pub print_tabs : ℤ → Cmd (Unit {0})
print_tabs (pos count) = tabs_loop count
print_tabs (negsuc n) = pure tt

-- `tabs++` and `tabs--`
abbrev pub inc : ℤ → ℤ
inc (pos n) = pos (suc n)
inc (negsuc zero) = pos 0
inc (negsuc (suc n)) = negsuc n

abbrev pub dec : ℤ → ℤ
dec (pos zero) = negsuc 0
dec (pos (suc n)) = pos n
dec (negsuc n) = negsuc (suc n)

-- The locals of `parse_dt_struct`; an array is its value at each index below 32.
pub record Parser : Type 0 where
  pub ptr : ℕ
  pub node_arr : ℕ → ℕ
  pub address_cells_arr : ℕ → ℕ
  pub size_cells_arr : ℕ → ℕ
  pub depth : ℕ
  pub tabs : ℤ

-- What the source takes from elsewhere.
pub record Outside : Type 0 where
  pub sprintf_length : (ℕ → ℕ) → ℕ → ℕ
  pub reg : ℕ
  pub cpu : ℕ
  pub memory : ℕ
  pub address_cells : ℕ
  pub size_cells : ℕ
  pub address_before : ℕ
  pub size_before : ℕ

-- `= {1}` sets the first element, the others are zero.
abbrev pub first_one : ℕ → ℕ
first_one i = if i == 0 then 1 else 0

abbrev pub start : (ptr : ℕ) → Parser
start ptr = record {
  ptr = ptr;
  node_arr = λ _. 0;
  address_cells_arr = first_one;
  size_cells_arr = first_one;
  depth = 0;
  tabs = pos 0;
}
