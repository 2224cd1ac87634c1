-- ===== src/Page/Walk.antt =====
-- The walk of a page table as an Sv39 processor makes it (RISC-V privileged architecture, address
-- translation), and the address space that a table stands for: at each virtual page the leaf entry
-- that covers it. It is the description with which src/page.c is compared.
use fifth_kernel.Base.{
  ℕ, zero, suc, ◌+◌, ◌*◌, ◌/◌, ◌%◌, ◌^◌, ◌<◌, ◌≡◌, arith, Option, none, some, ◌==◌, if◌then◌else◌,
  ap, ◌∙◌,
}
use fifth_kernel.Base.Bits.{bit_and_ones}
use fifth_kernel.Memory.{Memory}
use fifth_kernel.Page.{vpn_arr, is_leaf, table_of}
use fifth_kernel.Page.Entry.{Pte, load_pte}

-- `vpn / 512 ^ (l + 1)`, the part of a page number above the field of level `l`.
unfoldable pub prefix : (l vpn : ℕ) → ℕ
prefix zero vpn = vpn / 512
prefix (suc l) vpn = prefix l vpn / 512

-- The nine bits of a page number that index a table of level `l`.
unfoldable pub field : (l vpn : ℕ) → ℕ
unfolding prefix
field zero vpn = vpn % 512
field (suc l) vpn = prefix l vpn % 512

-- What a leaf entry grants: the level it stands at (0 for a page, 1 for a megapage, 2 for a
-- gigapage), the physical page it names, and its permissions.
pub record Leaf : Type 0 where
  pub level : ℕ
  pub ppn : ℕ
  pub r : ℕ
  pub w : ℕ
  pub x : ℕ

abbrev pub leaf : (level : ℕ) → Pte → Leaf
leaf level e = record { level = level; ppn = e.ppn; r = e.r; w = e.w; x = e.x }

-- What an entry of level `l` gives, where a link leads to `rest`; `none` is a page fault.
abbrev pub visit : (l : ℕ) → Pte → Option Leaf → Option Leaf
visit l e rest = if e.v == 0 then none else if is_leaf e then some (leaf l e) else rest

-- The walk from a table of level `l` on. A link at level 0 is a page fault.
unfoldable pub walk : Memory → (ident l table vpn : ℕ) → Option Leaf
walk m ident zero table vpn = visit zero (load_pte m (table + 8 * field zero vpn)) none
walk m ident (suc l) table vpn =
    let e = load_pte m (table + 8 * field (suc l) vpn) in
    visit (suc l) e (walk m ident l (table_of ident e) vpn)

-- The address space of a root table.
abbrev pub lookup : Memory → (ident root vpn : ℕ) → Option Leaf
lookup m ident root vpn = walk m ident 2 root vpn

pub field-lt : (l vpn : ℕ) → field l vpn < 512
unfolding field
field-lt zero vpn = omega arith
field-lt (suc l) vpn = omega arith

pub prefix_split : (l vpn : ℕ) → prefix l vpn ≡ prefix (suc l) vpn * 512 + field (suc l) vpn
unfolding field prefix
prefix_split l vpn = omega arith

-- The indices that the code masks out of a page number are the walk's fields.
pub vpn_arr-field :
    (vpn : ℕ)
    → (vpn_arr vpn 0 ≡ some (field 0 vpn))
      × (vpn_arr vpn 1 ≡ some (field 1 vpn))
      × (vpn_arr vpn 2 ≡ some (field 2 vpn))
unfolding vpn_arr field
vpn_arr-field vpn = (
  ap some (bit_and_ones 9 vpn),
  ap some (bit_and_ones 9 (vpn / 2 ^ 9)),
  ap some (bit_and_ones 9 (vpn / 2 ^ 18) ∙ (omega arith)),
)
