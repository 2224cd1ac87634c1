-- ===== src/Page/Map.antt =====
-- `map_page` of src/page.c on 4 KiB pages.
use fifth_kernel.Page.Spares.{Rewrites-Spares, store_pte-Beside}
use fifth_kernel.Page.Footprint.{Spares-trans}
use fifth_kernel.Base.{
  ℕ, ◌+◌, ◌*◌, ◌%◌, ◌^◌, ◌≤◌, ◌<◌, ◌≡◌, ◌≢◌, refl, sym, ap, ◌∙◌, arith, true, false, none, some,
  ◌==◌, if◌then◌else◌, ◌⊎◌, inl, inr, ℤ, Bool-cases, ==→eq, not_==→ne, ne→not_==, ◌-◌,
}
use fifth_kernel.Machine.{Machine, done, Cmd}
use fifth_kernel.Machine.Returns
use fifth_kernel.Machine.Returns.{Returns, returns}
use fifth_kernel.Page.{Descent, at, map_level, map_entry, map_page, walk_to, resolve, arrive}
use fifth_kernel.Page.Err
use fifth_kernel.Page.MapType
use fifth_kernel.Page.Entry.{Pte, IsPte, load_pte, store_pte, load_pte-IsPte, store_pte-IsBytes}
use fifth_kernel.Page.Walk.{prefix, field, Leaf, leaf, visit, field-lt}
use fifth_kernel.Page.Tree.{place, Places, Serves, no_link_at_zero}
use fifth_kernel.Page.Update.{Reaches, start, Reaches-lookup, Reaches-Serves}
use fifth_kernel.Page.Rewrite.{
  Rewrites, store_pte-Rewrites, Rewrites-IsTree, Rewrites-lookup, Rewrites-lookup_other, walk_plain,
}
use fifth_kernel.Page.Paged.{
  IsPaged, AddressSpace, space, available, Refines, page_leaf, insert_page,
}
use fifth_kernel.Page.Level.{Blocked, Outcome}
use fifth_kernel.Page.Kept.{Kept, Kept-Refines}
use fifth_kernel.Page.Descend.{vpn_arr_lem, descend-Outcome, none_not_some}

-- Two page numbers differ in the table that serves them last or in their entry there.
pub page_differs : (v vpn : ℕ) → v ≢ vpn → (prefix 0 v ≢ prefix 0 vpn) ⊎ (field 0 v ≢ field 0 vpn)
unfolding prefix field
page_differs v vpn ne = elim (Bool-cases (v % 512 == vpn % 512)) [
  | inl p ↦ inl (λ e. ne (omega (arith, ==→eq (v % 512) (vpn % 512) p)))
  | inr p ↦ inr (not_==→ne (v % 512) (vpn % 512) p)
]

-- The walk of either function for a 4 KiB page ends at the entry of a table of level 0.
pub arrive-page :
    (final : ℕ → Cmd ℤ) (vpn t : ℕ)
    → arrive final vpn MapType.page (at t) ≡ final (t + 8 * field 0 vpn)
unfolding arrive
arrive-page final vpn t = rw (vpn_arr_lem vpn 0 (omega arith), arrive)

-- The entry that `map_entry` stores.
abbrev pub mapped_entry : (ppn : ℕ) → Pte → Pte
mapped_entry ppn e = record e { r = 1; w = 1; x = 1; v = 1; ppn = ppn % 2 ^ 44 }

pub mapped_entry-IsPte : (ppn : ℕ) (e : Pte) → IsPte e → IsPte (mapped_entry ppn e)
mapped_entry-IsPte ppn e is = omega arith

pub insert_page_free :
    (before : AddressSpace) (vpn ppn : ℕ)
    → before vpn ≡ none
    → insert_page before vpn ppn
      ≡ (Err.success, λ v. if v == vpn then some (page_leaf ppn) else before v)
unfolding insert_page
insert_page_free before vpn ppn e = rw (e, insert_page)

pub insert_page_taken :
    (before : AddressSpace) (vpn ppn : ℕ) {found : Leaf}
    → before vpn ≡ some found
    → insert_page before vpn ppn ≡ (Err.already_mapped, before)
unfolding insert_page
insert_page_taken before vpn ppn e = rw (e, insert_page)

module _ {root vpn : ℕ} (s s' : Machine) (ppn t : ℕ) (h : vpn < 2 ^ 27) (kept : Kept root s s')
    (reaches : Reaches s'.memory s'.ident_map_addr root vpn 0 t)
    (left : available s ≤ available s' + 2) (fresh : (s' ≡ s) ⊎ (space root s vpn ≡ none)) where
  abbrev entry : ℕ
  entry = t + 8 * field 0 vpn

  abbrev e : Pte
  e = load_pte s'.memory entry

  here : Serves kept.places 0 vpn t
  here = Reaches-Serves kept.paged.tree h reaches

  looked_up : space root s' vpn ≡ visit 0 e none
  looked_up =
      Reaches-lookup reaches
      ∙ walk_plain s'.memory s'.ident_map_addr 0 t vpn e refl
          (no_link_at_zero kept.paged.tree vpn t here)

  rewritten :
      Rewrites kept.places s'.memory
        (store_pte s'.memory entry (mapped_entry ppn e))
        t
        (field 0 vpn)
        (mapped_entry ppn e)
  rewritten =
      store_pte-Rewrites kept.paged.tree kept.paged.range t (field 0 vpn) (place 0 (prefix 0 vpn))
        here (field-lt 0 vpn) (mapped_entry ppn e)
        (mapped_entry-IsPte ppn e (load_pte-IsPte s'.memory entry))

  abbrev mapped : Machine
  mapped = record s' {
    memory = store_pte s'.memory entry (mapped_entry ppn e);
    flushes = s'.flushes + 1;
  }

  stored :
      (e.v == 0) ≡ true → Refines root s (insert_page (space root s) vpn ppn) Err.success mapped
  stored free =
      let was : space root s vpn ≡ none = sym (kept.same vpn h) ∙ looked_up ∙ (rw free) in
      rw (insert_page_free (space root s) vpn ppn was) record {
        places = kept.places;
        paged = record {
          tree = Rewrites-IsTree kept.paged.tree rewritten here refl;
          bitmap = kept.paged.bitmap;
          range = kept.paged.range;
        };
        result = refl;
        mapped = λ v small. at_page v small (Bool-cases (v == vpn));
        flushed = inl (refl, ap (λ z. z.flushes + 1) kept.rest);
        rest =
            ap {A = Machine} {B = Machine}
              (λ z. record z { memory = mapped.memory; flushes = mapped.flushes }) kept.rest;
        refused = λ failed. absurd (failed refl);
        frames_left = left;
        held = kept.held;
        filled = kept.filled;
        bytes = λ h. store_pte-IsBytes s'.memory entry (mapped_entry ppn e) (kept.bytes h);
        spares = Spares-trans root s s' mapped kept.spares (
            Rewrites-Spares s' kept.paged h reaches (field 0 vpn) (field-lt 0 vpn) mapped.memory
              mapped.flushes rewritten refl
              (store_pte-Beside s'.memory entry (mapped_entry ppn e)));
      }
    where
      at_page :
          (v : ℕ)
          → v < 2 ^ 27
          → ((v == vpn) ≡ true) ⊎ ((v == vpn) ≡ false)
          → space root mapped v ≡ (if v == vpn then some (page_leaf ppn) else space root s v)
      at_page v small (inl same) =
          rw (same, ==→eq v vpn same)
            (Rewrites-lookup kept.paged.tree rewritten here vpn h reaches refl refl)
      at_page v small (inr other) = rw other (
          Rewrites-lookup_other kept.paged.tree rewritten here v small
            (page_differs v vpn (not_==→ne v vpn other))
          ∙ kept.same v small)

  -- An entry that is already valid is a leaf, since a table of level 0 has no links.
  refused :
      (e.v == 0) ≡ false → Refines root s (insert_page (space root s) vpn ppn) Err.already_mapped s'
  refused valid =
      let found : space root s vpn ≡ some (leaf 0 e) =
        sym (kept.same vpn h)
        ∙ looked_up
        ∙ (ground (arith, no_link_at_zero kept.paged.tree vpn t here)) in
      let unchanged : s' ≡ s = elim fresh [
        | inl same ↦ same
        | inr free ↦ absurd (none_not_some (sym free ∙ found))
      ] in
      rw (insert_page_taken (space root s) vpn ppn found)
        (Kept-Refines kept unchanged Err.already_mapped (λ c. cc))

  pub map_entry-Refines :
      Returns (Refines root s (insert_page (space root s) vpn ppn)) (map_entry ppn entry s')
  map_entry-Refines = elim (Bool-cases (e.v == 0)) [
    | inl free ↦ unfold map_entry in rw free (returns (stored free))
    | inr valid ↦ unfold map_entry in rw valid (returns (refused valid))
  ]

abbrev map_spec : (root : ℕ) → Machine → (vpn ppn : ℕ) → ℤ × AddressSpace
map_spec root s vpn ppn = insert_page (space root s) vpn ppn

walk_to-Refines :
    {places : Places} (root vpn ppn : ℕ) (s : Machine)
    → IsPaged places root s
    → vpn < 2 ^ 27
    → 2 ≤ available s
    → Returns
        (Refines root s (map_spec root s vpn ppn))
        (walk_to map_level (map_entry ppn) root vpn MapType.page s)
unfolding walk_to
walk_to-Refines root vpn ppn s paged h enough =
    Returns.bind
      (descend-Outcome 2 s vpn root (available s - 2) paged h (start refl refl) (omega arith)
        (omega arith))
      finish
  where
    blocked :
        {r : Descent} {s' : Machine}
        → Blocked root vpn s r s'
        → Refines root s (map_spec root s vpn ppn) Err.already_mapped s'
    blocked b =
        rw (insert_page_taken (space root s) vpn ppn b.hit.1)
          (Kept-Refines b.kept b.unchanged Err.already_mapped (λ c. cc))

    finish :
        (r : Descent) (s' : Machine)
        → Outcome root vpn s 0 (available s - 2) r s'
        → Returns
            (Refines root s (map_spec root s vpn ppn))
            (arrive (map_entry ppn) vpn MapType.page r s')
    finish r s' (inl a) =
        rw (a.result, arrive-page (map_entry ppn) vpn a.table)
          (map_entry-Refines s s' ppn a.table h a.kept a.reaches (omega (arith, a.spare_frames))
            a.fresh)
    finish r s' (inr b) = rw b.result (unfold arrive in returns (blocked b))

-- `map_page` on a 4 KiB page, in a well-formed page table with two free frames at hand, returns and
-- does to the address space what the insertion of the page does: if no leaf covers the page it
-- reports success and exactly this page gets a leaf, for the given physical page and with all
-- permissions; if one does, it reports ERR_ALREADY_MAPPED and the machine is as before. The table
-- stays well formed, at most two frames are taken, and no byte outside the tables and the frames
-- that were free changes.
pub map_page-Refines :
    (places : Places) (root table vpn ppn : ℕ) (s : Machine)
    → IsPaged places root s
    → resolve table s ≡ done root s
    → root ≢ 0
    → vpn < 2 ^ 27
    → 2 ≤ available s
    → Returns
        (Refines root s (insert_page (space root s) vpn ppn))
        (map_page table ppn vpn MapType.page s)
unfolding map_page
map_page-Refines places root table vpn ppn s paged resolved exists h enough =
    rw (resolved, ne→not_== root 0 exists) (walk_to-Refines root vpn ppn s paged h enough)
