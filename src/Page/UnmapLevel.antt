-- ===== src/Page/UnmapLevel.antt =====
-- The loop of `unmap_page` of src/page.c over the levels.
use fifth_kernel.Base.{
  ℕ, zero, suc, ◌+◌, ◌*◌, ◌≤◌, ◌≡◌, ◌≢◌, refl, ◌∙◌, arith, true, false, none, some, ◌==◌,
  if◌then◌else◌, ◌⊎◌, inl, inr, ℤ, Bool-cases, ==→eq, ne→not_==,
}
use fifth_kernel.Machine.{Machine, Cmd, pure}
use fifth_kernel.Machine.Returns
use fifth_kernel.Machine.Returns.{Returns, returns}
use fifth_kernel.Page.{is_leaf, table_of, Descent, at, stop, unmap_level, descend}
use fifth_kernel.Page.Err
use fifth_kernel.Page.Entry.{Pte, load_pte}
use fifth_kernel.Page.Walk.{field, Leaf, leaf, walk}
use fifth_kernel.Page.Update.{Reaches, next, Reaches-lookup}
use fifth_kernel.Page.Paged.{AddressSpace, space, remove_page}
use fifth_kernel.Page.Level.{visit-leaf, link_of}
use fifth_kernel.Page.Descend.{descend-suc}
use fifth_kernel.Page.Link.{visit_invalid}

pub remove_page_unmapped :
    (before : AddressSpace) (vpn : ℕ)
    → before vpn ≡ none
    → remove_page before vpn ≡ (Err.not_mapped, before)
unfolding remove_page
remove_page_unmapped before vpn e = rw (e, remove_page)

remove_page_larger :
    (before : AddressSpace) (vpn : ℕ) {found : Leaf}
    → before vpn ≡ some found
    → (found.level == 0) ≡ false
    → remove_page before vpn ≡ (Err.incorrect_map_type, before)
unfolding remove_page
remove_page_larger before vpn e l = rw (e, remove_page, l)

pub remove_page_mapped :
    (before : AddressSpace) (vpn : ℕ) {found : Leaf}
    → before vpn ≡ some found
    → (found.level == 0) ≡ true
    → remove_page before vpn ≡ (Err.success, λ v. if v == vpn then none else before v)
unfolding remove_page
remove_page_mapped before vpn e l = rw (e, remove_page, l)

-- The loop of `unmap_page` changes nothing: it comes to a table of level 0, or it stops with the
-- error of the abstract removal.
abbrev pub Outcome : (root vpn l : ℕ) → Machine → Descent → Machine → Type 0
Outcome root vpn l s r s' =
    (s' ≡ s)
    × (((t : ℕ) × (r ≡ at t) × Reaches s.memory s.ident_map_addr root vpn l t)
        ⊎ ((code : ℤ) × (r ≡ stop code)
            × (code ≢ Err.success)
            × (remove_page (space root s) vpn ≡ (code, space root s))))

unmap_level-Outcome :
    (root : ℕ) (s : Machine) (vpn l t : ℕ)
    → Reaches s.memory s.ident_map_addr root vpn (suc l) t
    → Returns (Outcome root vpn l s) (unmap_level (t + 8 * field (suc l) vpn) s)
unmap_level-Outcome root s vpn l t reaches = elim (Bool-cases (e.v == 0)) [
  | inl invalid ↦
      unfold unmap_level in
      rw invalid (
        returns (
          refl,
          inr (
            Err.not_mapped,
            refl,
            (λ c. cc),
            remove_page_unmapped (space root s) vpn (
                Reaches-lookup reaches
                ∙ (unfold walk in visit_invalid (suc l) e _ (==→eq e.v 0 invalid))),
          ),
        ))
  | inr valid ↦ elim (Bool-cases (is_leaf e)) [
    | inl q ↦
        unfold unmap_level in
        rw (valid, q)
          (returns (
            refl,
            inr (
              Err.incorrect_map_type,
              refl,
              (λ c. cc),
              remove_page_larger (space root s) vpn {found = leaf (suc l) e}
                  (Reaches-lookup reaches ∙ (unfold walk in visit-leaf (suc l) e _ valid q))
                  (ne→not_== (suc l) 0 (omega arith)),
            ),
          ))
    | inr q ↦
        unfold unmap_level in
        rw (valid, q)
          (returns
            (refl, inl (table_of s.ident_map_addr e, refl, next reaches (link_of e valid q) refl)))
  ]
]
  where
    e : Pte
    e = load_pte s.memory (t + 8 * field (suc l) vpn)

pub descend-Outcome :
    (i root : ℕ) (s : Machine) (vpn t : ℕ)
    → i ≤ 2
    → Reaches s.memory s.ident_map_addr root vpn i t
    → Returns (Outcome root vpn 0 s) (descend unmap_level i vpn t s)
descend-Outcome zero root s vpn t low reaches =
    unfold descend in returns (refl, inl (t, refl, reaches))
descend-Outcome (suc l) root s vpn t low reaches = rw (descend-suc unmap_level l vpn t s low) (
    Returns.bind (unmap_level-Outcome root s vpn l t reaches)
      λ r s' out. go r s' out (λ t' there. descend-Outcome l root s vpn t' (omega arith) there))
  where
    go :
        (r : Descent) (s' : Machine)
        → Outcome root vpn l s r s'
        → ((t' : ℕ)
            → Reaches s.memory s.ident_map_addr root vpn l t'
            → Returns (Outcome root vpn 0 s) (descend unmap_level l vpn t' s))
        → Returns (Outcome root vpn 0 s) (
            (elim r as (λ _. Cmd Descent) [
              | stop err ↦ pure (stop err)
              | at t' ↦ descend unmap_level l vpn t'
            ])
              s')
    go r s' (same, inl (t', e, there)) below = rw (same, e) (below t' there)
    go r s' (same, inr (code, e, failed, spec)) below =
        rw (same, e) (returns (refl, inr (code, refl, failed, spec)))
