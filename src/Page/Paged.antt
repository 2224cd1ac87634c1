-- ===== src/Page/Paged.antt =====
-- What a call of src/page.c that changes a page table is compared with: the invariant, the address
-- space, and the abstract operations.
use fifth_kernel.Frame.Lowest.{Filled}
use fifth_kernel.Page.Footprint.{Spares}
use fifth_kernel.Base.{
  ℕ, ◌+◌, ◌%◌, ◌^◌, ◌<◌, ◌≡◌, ◌≢◌, Option, none, some, ◌==◌, if◌then◌else◌, ◌⊎◌, ℤ, true, ◌≤◌,
}
use fifth_kernel.Memory.{Memory, IsBytes}
use fifth_kernel.Frame.{Frames, frame_count}
use fifth_kernel.Frame.Bitmap.{IsBitmap, allocated}
use fifth_kernel.Frame.Free.{free_frames}
use fifth_kernel.Machine.{Machine}
use fifth_kernel.Page.Err
use fifth_kernel.Page.Walk.{Leaf, lookup}
use fifth_kernel.Page.Tree.{Places, IsRange, IsTree}

pub record IsPaged (places : Places) (root : ℕ) (s : Machine) : Type 0 where
  pub tree : IsTree places root s.memory s.frames s.device.ram_start s.ident_map_addr
  pub bitmap : IsBitmap s.frames
  pub range : IsRange s.device.ram_start s.ident_map_addr

-- At each virtual page, the leaf that covers it.
abbrev pub AddressSpace : Type 0
AddressSpace = ℕ → Option Leaf

abbrev pub space : (root : ℕ) → Machine → AddressSpace
space root s = lookup s.memory s.ident_map_addr root

-- A call that changes memory and frames at most.
abbrev pub with_pages : Machine → Frames → Memory → Machine
with_pages s fs m = record s { frames = fs; memory = m }

abbrev pub available : Machine → ℕ
available s = free_frames frame_count s.frames

-- A call returned `code` in state `s'`: the table is well formed, the code and the address space
-- are those that `spec` gives, the translation cache was flushed once if the call succeeded and not
-- otherwise, and nothing but memory, frames and the count of flushes changed. A call that failed
-- changed nothing at all, and one that succeeded took two frames at most, each the lowest free one,
-- and gave none back. No byte outside the tables and the free frames changed.
pub record Refines (root : ℕ) (s : Machine) (spec : ℤ × AddressSpace) (code : ℤ) (s' : Machine)
    : Type 0 where
  pub places : Places
  pub paged : IsPaged places root s'
  pub result : code ≡ spec.0
  pub mapped : (vpn : ℕ) → vpn < 2 ^ 27 → space root s' vpn ≡ spec.1 vpn
  pub flushed :
      ((code ≡ Err.success) × (s'.flushes ≡ s.flushes + 1))
      ⊎ ((code ≢ Err.success) × (s'.flushes ≡ s.flushes))
  pub rest : s' ≡ record s { frames = s'.frames; memory = s'.memory; flushes = s'.flushes }
  pub refused : code ≢ Err.success → s' ≡ s
  pub frames_left : available s ≤ available s' + 2
  pub held : (f : ℕ) → allocated s.frames f ≡ true → allocated s'.frames f ≡ true
  pub filled : Filled s.frames s'.frames
  pub bytes : IsBytes s.memory → IsBytes s'.memory
  pub spares : Spares root s s'

-- The abstract `map_page` for a 4 KiB page: a page that no leaf covers gets one that allows reading,
-- writing and execution.
abbrev pub page_leaf : (ppn : ℕ) → Leaf
page_leaf ppn = record { level = 0; ppn = ppn % 2 ^ 44; r = 1; w = 1; x = 1 }

unfoldable pub insert_page : AddressSpace → (vpn ppn : ℕ) → ℤ × AddressSpace
insert_page space vpn ppn = elim (space vpn) [
  | none ↦ (Err.success, λ v. if v == vpn then some (page_leaf ppn) else space v)
  | some _ ↦ (Err.already_mapped, space)
]

-- The abstract `unmap_page` for a 4 KiB page: a page that a larger leaf covers is refused.
unfoldable pub remove_page : AddressSpace → (vpn : ℕ) → ℤ × AddressSpace
remove_page space vpn = elim (space vpn) [
  | none ↦ (Err.not_mapped, space)
  | some found ↦
      if found.level == 0
      then (Err.success, λ v. if v == vpn then none else space v)
      else (Err.incorrect_map_type, space)
]
