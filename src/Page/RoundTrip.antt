-- ===== src/Page/RoundTrip.antt =====
-- A page that is mapped and then unmapped, by src/page.c.
use fifth_kernel.Base.{
  ℕ, ◌^◌, ◌≤◌, ◌<◌, ◌≡◌, ◌≢◌, refl, sym, ap, ◌∙◌, none, some, ◌==◌, if◌then◌else◌, Bool-cases, inl,
  inr, ==→eq, ne→not_==, ==_refl,
}
use fifth_kernel.Machine.{Machine, done, ◌>>=◌}
use fifth_kernel.Machine.Returns.{Returns, bind, mono}
use fifth_kernel.Page.{map_page, unmap_page, resolve}
use fifth_kernel.Page.MapType
use fifth_kernel.Page.Err
use fifth_kernel.Page.Tree.{Places}
use fifth_kernel.Page.Paged.{IsPaged, AddressSpace, space, available, page_leaf}
use fifth_kernel.Page.Map.{map_page-Refines, insert_page_free}
use fifth_kernel.Page.Unmap.{unmap_page-Refines}
use fifth_kernel.Page.UnmapLevel.{remove_page_mapped}

pub resolve-given : (root : ℕ) (s : Machine) → root ≢ 0 → resolve root s ≡ done root s
unfolding resolve
resolve-given root s given = rw (ne→not_== root 0 given)

-- The address space after both calls, where the middle one is the insertion's.
back :
    (before middle after : AddressSpace) (vpn ppn v : ℕ)
    → before vpn ≡ none
    → middle v ≡ (if v == vpn then some (page_leaf ppn) else before v)
    → after v ≡ (if v == vpn then none else middle v)
    → after v ≡ before v
back before middle after vpn ppn v free first second = elim (Bool-cases (v == vpn)) [
  | inl same ↦
      let at : v ≡ vpn = ==→eq v vpn same in second ∙ rw same (sym free ∙ ap before (sym at))
  | inr other ↦ second ∙ rw other (first ∙ rw other)
]

-- On a 4 KiB page that no leaf covers, in a well-formed page table with two free frames at hand,
-- `unmap_page` after `map_page` reports success and every page has the leaf again that it had before
-- both; the table is well formed.
pub unmap_page-map_page :
    (places : Places) (root vpn ppn : ℕ) (s : Machine)
    → IsPaged places root s
    → root ≢ 0
    → vpn < 2 ^ 27
    → 2 ≤ available s
    → space root s vpn ≡ none
    → Returns
        (λ code s'.
          (code ≡ Err.success)
          × ((v : ℕ) → v < 2 ^ 27 → space root s' v ≡ space root s v)
          × ((places' : Places) × IsPaged places' root s'))
        ((map_page root ppn vpn MapType.page >>= λ _. unmap_page root vpn MapType.page) s)
unmap_page-map_page places root vpn ppn s paged given small spare free =
    bind
      (map_page-Refines places root root vpn ppn s paged (resolve-given root s given) given small
        spare)
      (λ _ s1 r1.
        let inserted = insert_page_free (space root s) vpn ppn free in
        let middle : (v : ℕ)
            → v < 2 ^ 27
            → space root s1 v ≡ (if v == vpn then some (page_leaf ppn) else space root s v) =
          λ v h. rw inserted at (r1.mapped v h) in
        let held : space root s1 vpn ≡ some (page_leaf ppn) = middle vpn small ∙ rw (==_refl vpn) in
        let removed = remove_page_mapped (space root s1) vpn held refl in
        mono
          (unmap_page-Refines r1.places root root vpn s1 r1.paged (resolve-given root s1 given)
            given small)
          (λ code s2 r2. (
            rw removed at r2.result,
            (λ v h.
                back (space root s) (space root s1) (space root s2) vpn ppn v free (middle v h)
                  (rw removed at (r2.mapped v h))),
            (r2.places, r2.paged),
          )))
