-- ===== src/Page/Megapage.antt =====
-- `map_page` of src/page.c on megapages.
use fifth_kernel.Base.{
  ℕ, ◌+◌, ◌*◌, ◌%◌, ◌^◌, ◌≤◌, ◌<◌, ◌≡◌, ◌≢◌, refl, arith, Bool, true, some, ◌==◌, if◌then◌else◌,
  ◌⊎◌, inl, inr, ℤ, Bool-cases, ==→eq, not_==→ne, none,
}
use fifth_kernel.Machine.{Machine, Cmd}
use fifth_kernel.Machine.Returns.{Returns}
use fifth_kernel.Page.{at, arrive}
use fifth_kernel.Page.Err
use fifth_kernel.Page.MapType
use fifth_kernel.Page.Entry.{Pte, load_pte, store_pte}
use fifth_kernel.Page.Walk.{prefix, field, Leaf, prefix_split}
use fifth_kernel.Page.Update.{Reaches}
use fifth_kernel.Page.Paged.{space}
use fifth_kernel.Page.Kept.{Kept}
use fifth_kernel.Page.Map.{mapped_entry}
use fifth_kernel.Page.Descend.{vpn_arr_lem}

abbrev pub mega_leaf : (ppn : ℕ) → Leaf
mega_leaf ppn = record { level = 1; ppn = ppn % 2 ^ 44; r = 1; w = 1; x = 1 }

-- The first page of the megapage whose entry the walk for `vpn` comes to.
abbrev pub crossed : ℕ → ℕ
crossed vpn = (field 1 vpn * 512 + field 1 vpn) * 512

pub twice_root : (x : ℕ) → x < 512 → field 2 ((x * 512 + x) * 512) ≡ x
unfolding field prefix
twice_root x h = omega arith

pub twice_entry : (x : ℕ) → x < 512 → field 1 ((x * 512 + x) * 512) ≡ x
unfolding field prefix
twice_entry x h = omega arith

-- The walk for `vpn` starts at the entry of the crossed page's gigapage.
abbrev pub same_mega : (v vpn : ℕ) → Bool
same_mega v vpn = prefix 0 v == prefix 0 (crossed vpn)

-- A leaf of a megapage or a gigapage covers the page, or a table of 4 KiB pages serves it.
abbrev pub IsUsed : (root : ℕ) → (s s' : Machine) → (w : ℕ) → Type 0
IsUsed root s s' w =
    ((found : Leaf) × (space root s w ≡ some found) × (1 ≤ found.level))
    ⊎ ((t : ℕ) × Reaches s'.memory s'.ident_map_addr root w 0 t)

-- The megapage of the crossed page had no leaf on any page, it was mapped, and no other page
-- changed; or it is in use, and no page changed.
abbrev pub Crossed : (root : ℕ) → Machine → (vpn ppn : ℕ) → ℤ → Machine → Type 0
Crossed root s vpn ppn code s' =
    ((code ≡ Err.success)
      × ((v : ℕ) → v < 2 ^ 27 → same_mega v vpn ≡ true → space root s v ≡ none)
      × ((v : ℕ)
          → v < 2 ^ 27
          → space root s' v ≡ (if same_mega v vpn then some (mega_leaf ppn) else space root s v)))
    ⊎ ((code ≡ Err.already_mapped)
        × IsUsed root s s' (crossed vpn)
        × ((v : ℕ) → v < 2 ^ 27 → space root s' v ≡ space root s v))

pub mega_differs :
    (v w : ℕ) → prefix 0 v ≢ prefix 0 w → (prefix 1 v ≢ prefix 1 w) ⊎ (field 1 v ≢ field 1 w)
mega_differs v w ne = elim (Bool-cases (field 1 v == field 1 w)) [
  | inl same ↦ inl (λ e.
      ne (omega (arith, e, ==→eq (field 1 v) (field 1 w) same, prefix_split 0 v, prefix_split 0 w)))
  | inr other ↦ inr (not_==→ne (field 1 v) (field 1 w) other)
]

module _ (root vpn ppn : ℕ) (s s' : Machine) (kept : Kept root s s') (t : ℕ)
    (reaches : Reaches s'.memory s'.ident_map_addr root (crossed vpn) 1 t)
    (low : crossed vpn < 2 ^ 27) where
  abbrev mega_entry : ℕ
  mega_entry = t + 8 * field 1 (crossed vpn)

  abbrev e : Pte
  e = load_pte s'.memory mega_entry

  abbrev stored : Machine
  stored = record s' {
    memory = store_pte s'.memory mega_entry (mapped_entry ppn e);
    flushes = s'.flushes + 1;
  }

pub arrive-mega :
    (final : ℕ → Cmd ℤ) (vpn t : ℕ)
    → arrive final vpn MapType.megapage (at t) ≡ final (t + 8 * field 1 vpn)
unfolding arrive
arrive-mega final vpn t = rw (vpn_arr_lem vpn 1 (omega arith), arrive) refl
