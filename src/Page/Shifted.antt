-- ===== src/Page/Shifted.antt =====
-- A page table of src/page.c that is seen at a distance: the same table, with the addresses of its
-- tables moved by `ident_map_addr`.
use fifth_kernel.Base.{
  ℕ, zero, suc, ◌+◌, ◌-◌, ◌*◌, ◌^◌, ◌<◌, ◌≡◌, refl, sym, ◌∙◌, arith, true, none, some, leb,
  if◌then◌else◌, inl, inr, Bool-cases,
}
use fifth_kernel.Memory.{Memory}
use fifth_kernel.Frame.{Frames}
use fifth_kernel.Page.{table_of}
use fifth_kernel.Page.Entry.{Pte, IsPte, load_pte, load_pte-IsPte, load_pte_shift}
use fifth_kernel.Page.Walk.{prefix, field, walk, lookup, field-lt}
use fifth_kernel.Page.Tree.{
  Place, place, Places, is_link, IsRange, IsFramed, IsTree, Serves, linked-Serves, visit_not_link,
}
use fifth_kernel.Page.Update.{start, Reaches-Serves}
use fifth_kernel.Page.Descend.{none_not_some}

-- The places of the tables, each moved by `ident`.
abbrev pub moved : Places → (ident : ℕ) → Places
moved places ident t = if leb ident t then places (t - ident) else none

moved-at : (places : Places) (ident t : ℕ) → moved places ident (t + ident) ≡ places t
moved-at places ident t =
    let above : leb ident (t + ident) ≡ true = ground arith in
    let back : t + ident - ident ≡ t = omega arith in rw (above, back) refl

moved-back :
    (places : Places) (ident t : ℕ) (pl : Place)
    → moved places ident t ≡ some pl
    → (t0 : ℕ) × (t ≡ t0 + ident) × (places t0 ≡ some pl)
moved-back places ident t pl h = elim (Bool-cases (leb ident t)) [
  | inl above ↦ (t - ident, ground (arith, above), rw above at h)
  | inr below ↦ absurd (none_not_some (rw below at h))
]

module _ {places : Places} {root : ℕ} {m : Memory} {fs : Frames} {ram_start ident : ℕ}
    (tree : IsTree places root m fs ram_start 0) (range : IsRange ram_start ident) (m' : Memory)
    (see : (t : ℕ) (pl : Place)
      → places t ≡ some pl
      → (j : ℕ) → j < 4096
      → m (t + j) ≡ m' (t + ident + j)) where
  entry_seen :
      (t i : ℕ) (pl : Place)
      → places t ≡ some pl
      → i < 512
      → load_pte m' (t + ident + 8 * i) ≡ load_pte m (t + 8 * i)
  entry_seen t i pl there small = sym (
      load_pte_shift m m' (t + 8 * i) (t + ident + 8 * i) λ j lt.
        (let here : t + 8 * i + j ≡ t + (8 * i + j) = omega arith in
          let far : t + ident + 8 * i + j ≡ t + ident + (8 * i + j) = omega arith in
          rw (here, far) (see t pl there (8 * i + j) (omega arith))))

  -- A link leads to the moved table.
  link_seen :
      (e : Pte) (pl : Place)
      → IsPte e
      → places (table_of 0 e) ≡ some pl
      → table_of ident e ≡ table_of 0 e + ident
  link_seen e pl is there =
      let framed = tree.framed (table_of 0 e) pl there in
      omega (arith, is.ppn_fits, framed.here, framed.in_bitmap, range.no_wrap, range.fits)

  IsFramed-seen : (t : ℕ) → IsFramed fs ram_start 0 t → IsFramed fs ram_start ident (t + ident)
  IsFramed-seen t f = record {
    frame = f.frame;
    in_bitmap = f.in_bitmap;
    taken = f.taken;
    here = omega (arith, f.here);
  }

  pub moved-IsTree : IsTree (moved places ident) (root + ident) m' fs ram_start ident
  moved-IsTree = record {
    root_placed = moved-at places ident root ∙ tree.root_placed;
    framed = λ t pl h.
        let (t0, e, there) = moved-back places ident t pl h in
        rw e (IsFramed-seen t0 (tree.framed t0 pl there));
    linked = λ t l q i h small link.
        let (t0, e, there) = moved-back places ident t (place l q) h in
        let same = entry_seen t0 i (place l q) there small in
        let (k, level, next) = tree.linked t0 l q i there small (rw (e, same) at link) in
        (
          k,
          level,
          rw
              (
                e,
                same,
                link_seen (load_pte m (t0 + 8 * i)) (place k (q * 512 + i))
                    (load_pte-IsPte m (t0 + 8 * i)) next,
              )
              (moved-at places ident (table_of 0 (load_pte m (t0 + 8 * i))) ∙ next),
        );
  }

  walk_seen :
      (l t vpn : ℕ) → Serves places l vpn t → walk m' ident l (t + ident) vpn ≡ walk m 0 l t vpn
  walk_seen zero t vpn here =
      unfold walk in
      rw (entry_seen t (field zero vpn) (place zero (prefix zero vpn)) here (field-lt zero vpn))
        refl
  walk_seen (suc l) t vpn here = down (λ t' there. walk_seen l t' vpn there)
    where
      e : Pte
      e = load_pte m (t + 8 * field (suc l) vpn)

      down :
          ((t' : ℕ) → Serves places l vpn t' → walk m' ident l (t' + ident) vpn ≡ walk m 0 l t' vpn)
          → walk m' ident (suc l) (t + ident) vpn ≡ walk m 0 (suc l) t vpn
      down ih =
          unfold walk in
          rw
            (entry_seen t (field (suc l) vpn) (place (suc l) (prefix (suc l) vpn)) here
              (field-lt (suc l) vpn))
            (elim (Bool-cases (is_link e)) [
              | inl link ↦
                  let there = linked-Serves tree l vpn t here link in
                  rw
                    (
                      link_seen e (place l (prefix l vpn))
                          (load_pte-IsPte m (t + 8 * field (suc l) vpn)) there,
                      ih (table_of 0 e) there,
                    )
                    refl
              | inr plain ↦ visit_not_link (suc l) e _ _ plain
            ])

  -- The moved table stands for the same address space.
  pub moved-lookup :
      (vpn : ℕ) → vpn < 2 ^ 27 → lookup m' ident (root + ident) vpn ≡ lookup m 0 root vpn
  moved-lookup vpn small = walk_seen 2 root vpn (Reaches-Serves tree small (start refl refl))
