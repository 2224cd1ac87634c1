-- ===== src/Page/MegapageUnmap.antt =====
-- `unmap_page` of src/page.c on megapages.
use fifth_kernel.Base.{ℕ, ◌+◌, ◌*◌, ◌^◌, ◌<◌, ◌≡◌, ◌≢◌, none, some, if◌then◌else◌, ◌⊎◌, ℤ}
use fifth_kernel.Mem.{memset}
use fifth_kernel.Machine.{Machine}
use fifth_kernel.Machine.Returns.{Returns}
use fifth_kernel.Page.{Descent, stop, at}
use fifth_kernel.Page.Err
use fifth_kernel.Page.MapType
use fifth_kernel.Page.Entry.{Pte, load_pte}
use fifth_kernel.Page.Walk.{field, Leaf}
use fifth_kernel.Page.Tree.{Places}
use fifth_kernel.Page.Update.{Reaches}
use fifth_kernel.Page.Paged.{IsPaged, space}
use fifth_kernel.Page.Megapage.{crossed, same_mega}

-- There is nothing to unmap as a megapage: the first page has no leaf, or that of a gigapage.
abbrev pub IsNoMega : (root : ℕ) → Machine → (v : ℕ) → Type 0
IsNoMega root s v =
    (space root s v ≡ none) ⊎ ((found : Leaf) × (space root s v ≡ some found) × (found.level ≡ 2))

-- The crossed megapage lost its leaf, or the whole table that divided it, and no other page changed;
-- or there is nothing to unmap, an error was reported and nothing changed.
abbrev pub CrossedOut : (root : ℕ) → Machine → (vpn : ℕ) → ℤ → Machine → Type 0
CrossedOut root s vpn code s' =
    ((code ≡ Err.success)
      × ((v : ℕ)
          → v < 2 ^ 27
          → space root s' v ≡ (if same_mega v vpn then none else space root s v)))
    ⊎ ((code ≢ Err.success) × (s' ≡ s) × IsNoMega root s (crossed vpn))

-- The loop's only round comes to a table of level 1, or there is nothing to unmap.
abbrev Round : (root w : ℕ) → Machine → Descent → Machine → Type 0
Round root w s r s' =
    (s' ≡ s)
    × (((t : ℕ) × (r ≡ at t) × Reaches s.memory s.ident_map_addr root w 1 t)
        ⊎ ((code : ℤ) × (r ≡ stop code) × (code ≢ Err.success) × IsNoMega root s w))

module _ {places : Places} (root vpn : ℕ) (s : Machine) (paged : IsPaged places root s) (t : ℕ)
    (reaches : Reaches s.memory s.ident_map_addr root (crossed vpn) 1 t)
    (low : crossed vpn < 2 ^ 27) where
  abbrev mega_entry : ℕ
  mega_entry = t + 8 * field 1 (crossed vpn)

  abbrev e : Pte
  e = load_pte s.memory mega_entry

  abbrev cleared : Machine
  cleared = record s { memory = memset s.memory mega_entry 0 8; flushes = s.flushes + 1 }
