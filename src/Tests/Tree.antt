-- ===== src/Tests/Tree.antt =====
-- src/fdt.c on a device tree of one node, which tells the range of memory.
use fifth_kernel.CString.{strncmp}
use fifth_kernel.Base.{
  ℕ, ◌+◌, ◌-◌, ◌≡◌, refl, arith, List, [], ◌∷◌, get_elem?, Option, none, some, leb, if◌then◌else◌,
  false, true,
}
use fifth_kernel.Memory.{Memory, load}
use fifth_kernel.Machine.{Machine}
use fifth_kernel.CString.Order.{order}
use fifth_kernel.Fdt.{Outside, start, swapb, swapb64, align32}
use fifth_kernel.Fdt.Facts.{memory_at}
use fifth_kernel.Fdt.Value.{HasNames}
use fifth_kernel.Fdt.Walk.{IsBlock, ends, begins, closes, says, facts}
use fifth_kernel.Fdt.Info.{IsTree}
use fifth_kernel.Tests.Values.{no_csr, machine, ram}

-- The header at 0x80002000, the property's name "reg" behind it at 0x30 and the structure block at 0x38, with a
-- node "memory" of 128 MiB from 0x80000000 on.
abbrev pub header : ℕ
header = ram + 0x2000

abbrev pub tree_bytes : List ℕ
tree_bytes =
    0xd0 ∷ 13 ∷ 0xfe ∷ 0xed ∷ 0 ∷ 0 ∷ 0 ∷ 0x68 ∷ 0 ∷ 0 ∷ 0 ∷ 0x38 ∷ 0 ∷ 0 ∷ 0 ∷ 0x30 ∷ 0 ∷ 0 ∷ 0
    ∷ 0x28 ∷ 0 ∷ 0 ∷ 0 ∷ 17 ∷ 0 ∷ 0 ∷ 0 ∷ 16 ∷ 0 ∷ 0 ∷ 0 ∷ 0 ∷ 0 ∷ 0 ∷ 0 ∷ 4 ∷ 0 ∷ 0 ∷ 0 ∷ 0x30 ∷ 0
    ∷ 0 ∷ 0 ∷ 0 ∷ 0 ∷ 0 ∷ 0 ∷ 0 ∷ 0x72 ∷ 0x65 ∷ 0x67 ∷ 0 ∷ 0 ∷ 0 ∷ 0 ∷ 0 ∷ 0 ∷ 0 ∷ 0 ∷ 1 ∷ 0x6d
    ∷ 0x65 ∷ 0x6d ∷ 0x6f ∷ 0x72 ∷ 0x79 ∷ 0 ∷ 0 ∷ 0 ∷ 0 ∷ 0 ∷ 3 ∷ 0 ∷ 0 ∷ 0 ∷ 16 ∷ 0 ∷ 0 ∷ 0 ∷ 0 ∷ 0
    ∷ 0 ∷ 0 ∷ 0 ∷ 0x80 ∷ 0 ∷ 0 ∷ 0 ∷ 0 ∷ 0 ∷ 0 ∷ 0 ∷ 0 ∷ 0 ∷ 0xc0 ∷ 0 ∷ 0 ∷ 0 ∷ 0 ∷ 2 ∷ 0 ∷ 0 ∷ 0
    ∷ 9 ∷ []

abbrev pub or_zero : Option ℕ → ℕ
or_zero none = 0
or_zero (some x) = x

-- "reg" stands at 0x100 and "memory" at 0x120; the other names are empty.
abbrev pub memory : Memory
memory a =
    if leb header a
    then or_zero (get_elem? tree_bytes (a - header))
    else if leb 0x120 a
    then or_zero (get_elem? (0x6d ∷ 0x65 ∷ 0x6d ∷ 0x6f ∷ 0x72 ∷ 0x79 ∷ []) (a - 0x120))
    else if leb 0x100 a
    then or_zero (get_elem? (0x72 ∷ 0x65 ∷ 0x67 ∷ []) (a - 0x100))
    else 0

abbrev pub out : Outside
out = record {
  sprintf_length = λ m a. 6;
  reg = 0x100;
  cpu = 0x110;
  memory = 0x120;
  address_cells = 0x130;
  size_cells = 0x140;
  address_before = 0;
  size_before = 0;
}

abbrev pub with_tree : Machine
with_tree = machine no_csr memory

abbrev pub names : HasNames out memory
names = record {
  reg = 0x72 ∷ 0x65 ∷ 0x67 ∷ [];
  address = [];
  size = [];
  reg_is = (
    refl,
    (λ e. omega (arith, e)),
    (refl, (λ e. omega (arith, e)), (refl, (λ e. omega (arith, e)), refl)),
  );
  address_is = refl;
  size_is = refl;
}

pub block : IsBlock out memory names (header + 0x30) 4 4 (start (header + 0x38))
unfolding swapb load align32 strncmp order
block = begins refl (omega arith) (
    says (0x72 ∷ 0x65 ∷ 0x67 ∷ []) refl
      record {
        in_node = refl;
        name = names.reg_is;
        short = omega arith;
        ranges = λ e. absurd (false_not_true e);
      }
      (closes refl (ends refl)))
  where
    false_not_true : ¬ (false ≡ true)
    false_not_true e = cc

pub tree : IsTree out memory header 4 0 4
unfolding swapb load
tree = record { magic = refl; names = names; reserved = refl; block = block }

pub told_range : facts tree.block ≡ memory_at ram 0xC000 ∷ []
unfolding tree block facts swapb64 swapb load align32 strncmp order
told_range = refl
