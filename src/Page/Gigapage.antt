-- ===== src/Page/Gigapage.antt =====
-- `map_page` and `unmap_page` of src/page.c on gigapages.
use fifth_kernel.Page.Spares.{Rewrites-Spares, Beside, store_pte-Beside, memset-Beside}
use fifth_kernel.Page.Footprint.{Spares}
use fifth_kernel.Memory.{Memory}
use fifth_kernel.Base.{
  ℕ, ◌+◌, ◌*◌, ◌%◌, ◌^◌, ◌<◌, ◌≡◌, ◌≢◌, refl, arith, Bool, true, false, not, ◌||◌, none, some, ◌==◌,
  if◌then◌else◌, ◌⊎◌, inl, inr, ℤ, Bool-cases, ==→eq, not_==→ne, ne→not_==, Option,
}
use fifth_kernel.Mem.{memset}
use fifth_kernel.Machine.{Machine, done, Cmd}
use fifth_kernel.Machine.Returns.{Returns, returns, mono}
use fifth_kernel.Page.{
  at, descend, map_entry, unmap_entry, map_page, unmap_page, walk_to, arrive, resolve, misaligned,
}
use fifth_kernel.Page.Err
use fifth_kernel.Page.MapType
use fifth_kernel.Page.Entry.{Pte, decode, load_pte, store_pte, load_pte-IsPte}
use fifth_kernel.Page.Walk.{field, Leaf, visit, walk, field-lt}
use fifth_kernel.Page.Tree.{place, Places, is_link}
use fifth_kernel.Page.Update.{start}
use fifth_kernel.Page.Link.{visit_invalid, empty_visit}
use fifth_kernel.Page.Rewrite.{
  Rewrites, store_pte-Rewrites, memset-Rewrites, Rewrites-IsTree, Rewrites-lookup,
  Rewrites-lookup_other,
}
use fifth_kernel.Page.Paged.{IsPaged, space}
use fifth_kernel.Page.Map.{mapped_entry, mapped_entry-IsPte}
use fifth_kernel.Page.Unmap.{empty_entry}
use fifth_kernel.Page.Descend.{vpn_arr_lem}

-- The leaf of a gigapage that allows reading, writing and execution.
abbrev pub giga_leaf : (ppn : ℕ) → Leaf
giga_leaf ppn = record { level = 2; ppn = ppn % 2 ^ 44; r = 1; w = 1; x = 1 }

-- Two pages lie in one gigapage.
abbrev pub same_giga : (v vpn : ℕ) → Bool
same_giga v vpn = field 2 v == field 2 vpn

arrive-giga :
    (final : ℕ → Cmd ℤ) (vpn t : ℕ)
    → arrive final vpn MapType.gigapage (at t) ≡ final (t + 8 * field 2 vpn)
unfolding arrive
arrive-giga final vpn t = rw (vpn_arr_lem vpn 2 (omega arith), arrive) refl

-- The call changed the table: every page of the gigapage has `now`, no other page changed, the
-- translation cache was flushed, and no byte outside the tables and the free frames changed.
pub record IsChanged (root : ℕ) (s : Machine) (vpn : ℕ) (now : Option Leaf) (s' : Machine)
    : Type 0 where
  pub places : Places
  pub paged : IsPaged places root s'
  pub mapped :
      (v : ℕ) → v < 2 ^ 27 → space root s' v ≡ (if same_giga v vpn then now else space root s v)
  pub rest : s' ≡ record s { memory = s'.memory; flushes = s.flushes + 1 }
  pub spares : Spares root s s'

module _ {places : Places} {root : ℕ} (s : Machine) (paged : IsPaged places root s) (vpn : ℕ) where
  abbrev entry : ℕ
  entry = root + 8 * field 2 vpn

  -- A rewrite of the root's entry by one that is no link.
  rewritten-IsChanged :
      (p : Pte) (m' : Memory)
      → Rewrites places s.memory m' root (field 2 vpn) p
      → is_link p ≡ false
      → ((x : ℕ) → Beside entry x → m' x ≡ s.memory x)
      → IsChanged root s vpn (visit 2 p none) (record s { memory = m'; flushes = s.flushes + 1 })
  rewritten-IsChanged p m' rewrites plain same = record {
    places = places;
    paged = record {
      tree = Rewrites-IsTree paged.tree rewrites paged.tree.root_placed plain;
      bitmap = paged.bitmap;
      range = paged.range;
    };
    mapped = λ v h. at_page v h (Bool-cases (same_giga v vpn));
    rest = refl;
    spares =
        Rewrites-Spares s paged {vpn = 0} (omega arith) (start refl refl) (field 2 vpn)
          (field-lt 2 vpn) m' (s.flushes + 1) rewrites plain same;
  }
    where
      at_page :
          (v : ℕ)
          → v < 2 ^ 27
          → (same_giga v vpn ≡ true) ⊎ (same_giga v vpn ≡ false)
          → space root (record s { memory = m'; flushes = s.flushes + 1 }) v
            ≡ (if same_giga v vpn then visit 2 p none else space root s v)
      at_page v h (inl same) = rw same (
          Rewrites-lookup paged.tree rewrites paged.tree.root_placed v h (start refl refl)
            (==→eq (field 2 v) (field 2 vpn) same) plain)
      at_page v h (inr other) = rw other (
          Rewrites-lookup_other paged.tree rewrites paged.tree.root_placed v h
            (inr (not_==→ne (field 2 v) (field 2 vpn) other)))

  abbrev pub in_use : Bool
  in_use = not ((load_pte s.memory entry).v == 0)

  -- No page of a gigapage is mapped whose entry is not in use.
  abbrev pub IsEmpty : Type 0
  IsEmpty = (v : ℕ) → same_giga v vpn ≡ true → space root s v ≡ none

  unused-IsEmpty : ((load_pte s.memory entry).v == 0) ≡ true → IsEmpty
  unfolding walk
  unused-IsEmpty unused v same =
      rw (==→eq (field 2 v) (field 2 vpn) same)
        (visit_invalid 2 (load_pte s.memory entry) _ (==→eq (load_pte s.memory entry).v 0 unused))

  -- What `map_page` does at the root's entry.
  abbrev pub Entered : (ppn : ℕ) → ℤ → Machine → Type 0
  Entered ppn code s' =
      ((code ≡ Err.success) × IsEmpty × IsChanged root s vpn (some (giga_leaf ppn)) s')
      ⊎ ((code ≡ Err.already_mapped) × (in_use ≡ true) × (s' ≡ s))

  map_entry-Entered : (ppn : ℕ) → Returns (Entered ppn) (map_entry ppn entry s)
  unfolding map_entry
  map_entry-Entered ppn = elim (Bool-cases ((load_pte s.memory entry).v == 0)) [
    | inl unused ↦
        let e = load_pte s.memory entry in
        rw unused (
          returns (
            inl (
              refl,
              unused-IsEmpty unused,
              rewritten-IsChanged (mapped_entry ppn e)
                  (store_pte s.memory entry (mapped_entry ppn e))
                  (store_pte-Rewrites paged.tree paged.range root (field 2 vpn) (place 2 0)
                    paged.tree.root_placed (field-lt 2 vpn) (mapped_entry ppn e)
                    (mapped_entry-IsPte ppn e (load_pte-IsPte s.memory entry)))
                  refl (store_pte-Beside s.memory entry (mapped_entry ppn e)),
            )))
    | inr used ↦ rw used (returns (inr (refl, rw used refl, refl)))
  ]

  abbrev pub Removed : ℤ → Machine → Type 0
  Removed code s' =
      ((code ≡ Err.success) × (in_use ≡ true) × IsChanged root s vpn none s')
      ⊎ ((code ≡ Err.not_mapped) × IsEmpty × (s' ≡ s))

  unmap_entry-Removed : Returns Removed (unmap_entry entry s)
  unfolding unmap_entry
  unmap_entry-Removed = elim (Bool-cases ((load_pte s.memory entry).v == 0)) [
    | inl unused ↦ rw unused (returns (inr (refl, unused-IsEmpty unused, refl)))
    | inr used ↦ rw used (
        returns (
          inl (
            refl,
            rw used refl,
            rw (empty_visit 2 none) at (
                rewritten-IsChanged (decode 0) (memset s.memory entry 0 8)
                  (memset-Rewrites paged.tree paged.range root (field 2 vpn) (place 2 0)
                    paged.tree.root_placed (field-lt 2 vpn))
                  empty_entry.0 (memset-Beside s.memory entry)),
          )))
  ]

abbrev pub giga_misaligned : ℕ → Bool
giga_misaligned = misaligned MapType.gigapage_align

module _ (places : Places) (root table vpn : ℕ) (s : Machine) (paged : IsPaged places root s)
    (resolved : resolve table s ≡ done root s) (given : root ≢ 0) where
  -- `map_page` on a gigapage, in a well-formed table, returns: a page number that is no multiple of
  -- 262144 gives ERR_ALIGN and no change; else, if the root's entry is in use, it is
  -- ERR_ALREADY_MAPPED and no change; else no page of the gigapage was mapped, the call succeeds,
  -- every page of it now has the one leaf, of level 2, no other page changes, and no byte outside
  -- the tables and the free frames.
  pub map_page-Entered :
      (ppn : ℕ)
      → Returns
          (λ code s'.
            (((giga_misaligned ppn || giga_misaligned vpn) ≡ false)
              × Entered s paged vpn ppn code s')
            ⊎ (((giga_misaligned ppn || giga_misaligned vpn) ≡ true)
                × (code ≡ Err.align)
                × (s' ≡ s)))
          (map_page table ppn vpn MapType.gigapage s)
  unfolding map_page walk_to descend
  map_page-Entered ppn = elim (Bool-cases (giga_misaligned ppn || giga_misaligned vpn)) [
    | inl wrong ↦ rw wrong (returns (inr (refl, refl, refl)))
    | inr right ↦
        rw (right, resolved, ne→not_== root 0 given, arrive-giga (map_entry ppn) vpn root)
          (mono (map_entry-Entered s paged vpn ppn) (λ code s' out. inl (refl, out)))
  ]

  -- `unmap_page` on a gigapage, in a well-formed table, returns: a page number that is no multiple of
  -- 262144 gives ERR_ALIGN and no change; else, if the root's entry is not in use, no page of the
  -- gigapage was mapped and it is ERR_NOT_MAPPED and no change; else the call succeeds, whatever the
  -- entry was, no page of the gigapage is mapped any more, no other page changes, and no byte outside
  -- the tables and the free frames.
  pub unmap_page-Removed :
      Returns
        (λ code s'.
          ((giga_misaligned vpn ≡ false) × Removed s paged vpn code s')
          ⊎ ((giga_misaligned vpn ≡ true) × (code ≡ Err.align) × (s' ≡ s)))
        (unmap_page table vpn MapType.gigapage s)
  unfolding unmap_page walk_to descend
  unmap_page-Removed = elim (Bool-cases (giga_misaligned vpn)) [
    | inl wrong ↦ rw wrong (returns (inr (refl, refl, refl)))
    | inr right ↦
        rw (right, resolved, ne→not_== root 0 given, arrive-giga unmap_entry vpn root)
          (mono (unmap_entry-Removed s paged vpn) (λ code s' out. inl (refl, out)))
  ]
