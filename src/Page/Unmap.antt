-- ===== src/Page/Unmap.antt =====
-- `unmap_page` of src/page.c on 4 KiB pages.
use fifth_kernel.Page.UnmapLevel.{
  remove_page_unmapped, remove_page_mapped, Outcome, descend-Outcome,
}
use fifth_kernel.Mem.Copy.{memset-IsBytes}
use fifth_kernel.Frame.Lowest.{Filled-refl}
use fifth_kernel.Page.Spares.{Rewrites-Spares, memset-Beside}
use fifth_kernel.Base.{
  ℕ, ◌+◌, ◌*◌, ◌^◌, ◌<◌, ◌≡◌, ◌≢◌, refl, ◌∙◌, arith, true, false, none, some, ◌==◌, if◌then◌else◌,
  ◌⊎◌, inl, inr, Bool-cases, ==→eq, not_==→ne, ne→not_==,
}
use fifth_kernel.Mem.{memset}
use fifth_kernel.Machine.{Machine, done}
use fifth_kernel.Machine.Returns
use fifth_kernel.Machine.Returns.{Returns, returns}
use fifth_kernel.Page.{Descent, unmap_entry, unmap_page, walk_to, resolve, arrive}
use fifth_kernel.Page.Err
use fifth_kernel.Page.MapType
use fifth_kernel.Page.Entry.{Pte, decode, load_pte}
use fifth_kernel.Page.Walk.{prefix, field, leaf, visit, field-lt}
use fifth_kernel.Page.Tree.{place, Places, is_link, Serves, no_link_at_zero}
use fifth_kernel.Page.Update.{Reaches, start, Reaches-lookup, Reaches-Serves}
use fifth_kernel.Page.Rewrite.{
  Rewrites, memset-Rewrites, Rewrites-IsTree, Rewrites-lookup, Rewrites-lookup_other, walk_plain,
}
use fifth_kernel.Page.Paged.{IsPaged, space, Refines, remove_page}
use fifth_kernel.Page.Kept.{Kept-Refines, Kept-refl}
use fifth_kernel.Page.Map.{page_differs, arrive-page}

pub empty_entry : (is_link (decode 0) ≡ false) × (visit 0 (decode 0) none ≡ none)
unfolding decode
empty_entry = (refl, refl)

module _ {places : Places} {root vpn : ℕ} (s : Machine) (paged : IsPaged places root s) (t : ℕ)
    (h : vpn < 2 ^ 27) (reaches : Reaches s.memory s.ident_map_addr root vpn 0 t) where
  abbrev entry : ℕ
  entry = t + 8 * field 0 vpn

  abbrev e : Pte
  e = load_pte s.memory entry

  here : Serves places 0 vpn t
  here = Reaches-Serves paged.tree h reaches

  looked_up : space root s vpn ≡ visit 0 e none
  looked_up =
      Reaches-lookup reaches
      ∙ walk_plain s.memory s.ident_map_addr 0 t vpn e refl (no_link_at_zero paged.tree vpn t here)

  rewritten : Rewrites places s.memory (memset s.memory entry 0 8) t (field 0 vpn) (decode 0)
  rewritten =
      memset-Rewrites paged.tree paged.range t (field 0 vpn) (place 0 (prefix 0 vpn)) here
        (field-lt 0 vpn)

  abbrev cleared : Machine
  cleared = record s { memory = memset s.memory entry 0 8; flushes = s.flushes + 1 }

  removed : (e.v == 0) ≡ false → Refines root s (remove_page (space root s) vpn) Err.success cleared
  removed valid =
      let found : space root s vpn ≡ some (leaf 0 e) =
        looked_up ∙ (ground (arith, no_link_at_zero paged.tree vpn t here)) in
      rw (remove_page_mapped (space root s) vpn found refl) record {
        places = places;
        paged = record {
          tree = Rewrites-IsTree paged.tree rewritten here empty_entry.0;
          bitmap = paged.bitmap;
          range = paged.range;
        };
        result = refl;
        mapped = λ v small. at_page v small (Bool-cases (v == vpn));
        flushed = inl (refl, refl);
        rest = refl;
        refused = λ failed. absurd (failed refl);
        frames_left = omega arith;
        held = λ f p. p;
        filled = Filled-refl s.frames;
        bytes = λ h. memset-IsBytes s.memory entry 0 8 h;
        spares =
            Rewrites-Spares s paged h reaches (field 0 vpn) (field-lt 0 vpn) cleared.memory
              cleared.flushes rewritten empty_entry.0 (memset-Beside s.memory entry);
      }
    where
      at_page :
          (v : ℕ)
          → v < 2 ^ 27
          → ((v == vpn) ≡ true) ⊎ ((v == vpn) ≡ false)
          → space root cleared v ≡ (if v == vpn then none else space root s v)
      at_page v small (inl same) =
          rw (same, ==→eq v vpn same)
            (Rewrites-lookup paged.tree rewritten here vpn h reaches refl empty_entry.0
              ∙ empty_entry.1)
      at_page v small (inr other) = rw other (
          Rewrites-lookup_other paged.tree rewritten here v small
            (page_differs v vpn (not_==→ne v vpn other)))

  refused : (e.v == 0) ≡ true → Refines root s (remove_page (space root s) vpn) Err.not_mapped s
  refused invalid =
      rw (remove_page_unmapped (space root s) vpn (looked_up ∙ (rw invalid)))
        (Kept-Refines (Kept-refl s paged) refl Err.not_mapped (λ c. cc))

  unmap_entry-Refines :
      Returns (Refines root s (remove_page (space root s) vpn)) (unmap_entry entry s)
  unmap_entry-Refines = elim (Bool-cases (e.v == 0)) [
    | inl invalid ↦ unfold unmap_entry in rw invalid (returns (refused invalid))
    | inr valid ↦ unfold unmap_entry in rw valid (returns (removed valid))
  ]

-- `unmap_page` on a 4 KiB page, in a well-formed page table, returns and does to the address space
-- what the removal of the page does: a page that a page leaf covers is reported unmapped, and
-- exactly this page loses its leaf; a page that no leaf covers gives ERR_NOT_MAPPED and a page that
-- a larger leaf covers ERR_INCORRECT_MAP_TYPE, and the machine is as before. The table stays well
-- formed, and no byte outside the tables and the free frames changes.
pub unmap_page-Refines :
    (places : Places) (root table vpn : ℕ) (s : Machine)
    → IsPaged places root s
    → resolve table s ≡ done root s
    → root ≢ 0
    → vpn < 2 ^ 27
    → Returns
        (Refines root s (remove_page (space root s) vpn))
        (unmap_page table vpn MapType.page s)
unfolding unmap_page walk_to
unmap_page-Refines places root table vpn s paged resolved exists h =
    rw (resolved, ne→not_== root 0 exists)
      (Returns.bind (descend-Outcome 2 root s vpn root (omega arith) (start refl refl)) finish)
  where
    finish :
        (r : Descent) (s' : Machine)
        → Outcome root vpn 0 s r s'
        → Returns
            (Refines root s (remove_page (space root s) vpn))
            (arrive unmap_entry vpn MapType.page r s')
    finish r s' (same, inl (t, e, there)) =
        rw (same, e, arrive-page unmap_entry vpn t) (unmap_entry-Refines s paged t h there)
    finish r s' (same, inr (code, e, failed, spec)) =
        rw (same, e, spec)
          (unfold arrive in returns (Kept-Refines (Kept-refl s paged) refl code failed))
