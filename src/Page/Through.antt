-- ===== src/Page/Through.antt =====
-- Memory as a processor sees it through the table that `satp` names (RISC-V privileged architecture,
-- address translation): what the code of src/page.c works on once paging is on.
use fifth_kernel.Base.{ℕ, ◌+◌, ◌*◌, ◌/◌, ◌%◌, ◌^◌, ◌<◌, ◌≡◌, refl, arith, Option, none, some}
use fifth_kernel.Memory.{Memory}
use fifth_kernel.Machine.{Machine}
use fifth_kernel.Page.Walk.{Leaf, lookup}
use fifth_kernel.Page.Paged.{page_leaf}

-- The physical address of `a` in the page of a leaf, whose size depends on its level.
unfoldable pub physical : Leaf → (a : ℕ) → ℕ
physical found a = let size = 4096 * 512 ^ found.level in found.ppn * 4096 / size * size + a % size

-- `none` is a page fault.
unfoldable pub translate : Memory → (root a : ℕ) → Option ℕ
translate m root a = elim (lookup m 0 root (a / 4096 % 2 ^ 27)) [
  | none ↦ none
  | some found ↦ some (physical found a)
]

-- The bytes at the virtual addresses; nothing is said of an address that faults, whose byte is a zero
-- here.
unfoldable pub seen : Memory → (root : ℕ) → Memory
seen m root a = elim (translate m root a) [ none ↦ 0 | some p ↦ m p ]

-- The root table that `satp` names, by its field PPN.
abbrev pub satp_root : Machine → ℕ
satp_root s = s.csr.satp % 2 ^ 44 * 4096

-- The state with memory as it is seen through the table.
abbrev pub through : Machine → Machine
through s = record s { memory = seen s.memory (satp_root s) }

-- An address in a 4 KiB page is seen where the page's leaf says.
pub seen-page :
    (m : Memory) (root a p : ℕ)
    → lookup m 0 root (a / 4096 % 2 ^ 27) ≡ some (page_leaf p)
    → p < 2 ^ 44
    → seen m root a ≡ m (p * 4096 + a % 4096)
unfolding seen
seen-page m root a p found small = rw (here, seen) refl
  where
    here : translate m root a ≡ some (p * 4096 + a % 4096)
    here =
        let whole : p % 2 ^ 44 ≡ p = omega arith in
        let first : p * 4096 / 4096 * 4096 ≡ p * 4096 = omega arith in
        unfold translate physical in rw (found, translate, whole, first) refl
