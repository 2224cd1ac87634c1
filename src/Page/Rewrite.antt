-- ===== src/Page/Rewrite.antt =====
-- One entry of a placed table of src/page.c is rewritten: by a leaf, by an empty entry or by a link.
use fifth_kernel.Base.{
  ℕ, zero, suc, ◌+◌, ◌*◌, ◌^◌, ◌≤◌, ◌<◌, ◌≡◌, ◌≢◌, refl, sym, ap, ◌∙◌, arith, true, false, none,
  some, ◌==◌, ◌⊎◌, inl, inr, Bool-cases, ==→eq, not_==→ne,
}
use fifth_kernel.Memory.{Memory}
use fifth_kernel.Mem.{memset}
use fifth_kernel.Mem.Copy.{memset_lem}
use fifth_kernel.Frame.{Frames}
use fifth_kernel.Page.{table_of}
use fifth_kernel.Page.Entry.{
  Pte, IsPte, decode, load_pte, store_pte, load_pte-store_pte, load_pte-store_pte_apart,
  load_pte_ext, load_pte-zero,
}
use fifth_kernel.Page.Walk.{prefix, field, visit, walk, lookup, field-lt}
use fifth_kernel.Page.Tree.{
  Place, place, Places, is_link, IsRange, IsTree, Serves, walk_same, visit_not_link,
}
use fifth_kernel.Page.Update.{
  IsFramed-aligned, entries_apart, Reaches, Reaches-lookup, Reaches-Serves, Reaches-transfer, start,
}

-- Of the entries of the placed tables, `m'` has `p` at index `i0` of the table `t0`, and the rest
-- from `m`.
pub record Rewrites (places : Places) (m m' : Memory) (t0 i0 : ℕ) (p : Pte) : Type 0 where
  pub changed : load_pte m' (t0 + 8 * i0) ≡ p
  pub others :
      (t i : ℕ) (pl : Place)
      → places t ≡ some pl
      → i < 512
      → (t ≢ t0) ⊎ (i ≢ i0)
      → load_pte m' (t + 8 * i) ≡ load_pte m (t + 8 * i)

pub same_entry : (t i t0 i0 : ℕ) → ((t ≡ t0) × (i ≡ i0)) ⊎ ((t ≢ t0) ⊎ (i ≢ i0))
same_entry t i t0 i0 = elim (Bool-cases (t == t0)) [
  | inl p ↦ elim (Bool-cases (i == i0)) [
    | inl q ↦ inl (==→eq t t0 p, ==→eq i i0 q)
    | inr q ↦ inr (inr (not_==→ne i i0 q))
  ]
  | inr p ↦ inr (inl (not_==→ne t t0 p))
]

pub place_eq : {a b c d : ℕ} → some (place a b) ≡ some (place c d) → (a ≡ c) × (b ≡ d)
place_eq h = ground arith

not_both :
    (l vpn q i : ℕ)
    → (prefix l vpn ≢ q) ⊎ (field l vpn ≢ i)
    → prefix l vpn ≡ q
    → field l vpn ≡ i
    → ⊥
not_both l vpn q i (inl ne) e f = ne e
not_both l vpn q i (inr ne) e f = ne f

pub walk_plain :
    (m : Memory) (ident l t vpn : ℕ) (p : Pte)
    → load_pte m (t + 8 * field l vpn) ≡ p
    → is_link p ≡ false
    → walk m ident l t vpn ≡ visit l p none
unfolding walk
walk_plain m ident zero t vpn p e plain = rw e
walk_plain m ident (suc l) t vpn p e plain = rw e (visit_not_link (suc l) p _ none plain)

module _ {places : Places} {root : ℕ} {m : Memory} {fs : Frames} {ram_start ident : ℕ}
    (tree : IsTree places root m fs ram_start ident) where
  module _ (range : IsRange ram_start ident) (t0 i0 : ℕ) (pl0 : Place) (here : places t0 ≡ some pl0)
      (small : i0 < 512) where
    apart :
        (t i : ℕ) (pl : Place)
        → places t ≡ some pl
        → i < 512
        → (t ≢ t0) ⊎ (i ≢ i0)
        → (t + 8 * i + 8 ≤ t0 + 8 * i0) ⊎ (t0 + 8 * i0 + 8 ≤ t + 8 * i)
    apart t i pl there h ne =
        entries_apart t0 t i0 i (IsFramed-aligned range (tree.framed t0 pl0 here))
          (IsFramed-aligned range (tree.framed t pl there)) small h ne

    pub store_pte-Rewrites :
        (p : Pte) → IsPte p → Rewrites places m (store_pte m (t0 + 8 * i0) p) t0 i0 p
    store_pte-Rewrites p is = record {
      changed = load_pte-store_pte m (t0 + 8 * i0) p is;
      others = λ t i pl there h ne.
          load_pte-store_pte_apart m (t0 + 8 * i0) (t + 8 * i) p (apart t i pl there h ne);
    }

    pub memset-Rewrites : Rewrites places m (memset m (t0 + 8 * i0) 0 8) t0 i0 (decode 0)
    memset-Rewrites = record {
      changed =
          load_pte-zero (memset m (t0 + 8 * i0) 0 8) (t0 + 8 * i0)
            λ x p q. ground (arith, memset_lem m (t0 + 8 * i0) 0 8 x);
      others = λ t i pl there h ne.
          load_pte_ext (memset m (t0 + 8 * i0) 0 8) m (t + 8 * i)
            λ x p q. ground (arith, memset_lem m (t0 + 8 * i0) 0 8 x, apart t i pl there h ne);
    }

  module _ {m' : Memory} {t0 i0 l0 q0 : ℕ} {p : Pte} (rewrites : Rewrites places m m' t0 i0 p)
      (here : places t0 ≡ some (place l0 q0)) where
    -- A rewrite by an entry that is no link keeps the tree.
    pub Rewrites-IsTree : is_link p ≡ false → IsTree places root m' fs ram_start ident
    Rewrites-IsTree plain = record {
      root_placed = tree.root_placed;
      framed = tree.framed;
      linked = λ t l q i there h link. split t l q i there h link (same_entry t i t0 i0);
    }
      where
        split :
            (t l q i : ℕ)
            → places t ≡ some (place l q)
            → i < 512
            → is_link (load_pte m' (t + 8 * i)) ≡ true
            → ((t ≡ t0) × (i ≡ i0)) ⊎ ((t ≢ t0) ⊎ (i ≢ i0))
            → (k : ℕ) × (l ≡ suc k)
              × (places (table_of ident (load_pte m' (t + 8 * i))) ≡ some (place k (q * 512 + i)))
        split t l q i there h link (inl (e, f)) =
            let bad : is_link p ≡ true = rw (e, f, rewrites.changed) at link in
            absurd (clash p plain bad)
          where
            clash : (p : Pte) → is_link p ≡ false → is_link p ≡ true → ⊥
            clash p a b = ground arith
        split t l q i there h link (inr ne) =
            let eq = rewrites.others t i (place l q) there h ne in
            rw eq (tree.linked t l q i there h (rw eq at link))

    -- A page number that the entry does not serve keeps its leaf.
    pub Rewrites-lookup_other :
        (vpn : ℕ)
        → vpn < 2 ^ 27
        → (prefix l0 vpn ≢ q0) ⊎ (field l0 vpn ≢ i0)
        → lookup m' ident root vpn ≡ lookup m ident root vpn
    Rewrites-lookup_other vpn h other =
        walk_same tree m' vpn 2 root (Reaches-Serves tree h (start refl refl)) λ l t there. inl (
          rewrites.others t (field l vpn) (place l (prefix l vpn)) there (field-lt l vpn)
            (differs l t there other))
      where
        differs :
            (l t : ℕ)
            → Serves places l vpn t
            → (prefix l0 vpn ≢ q0) ⊎ (field l0 vpn ≢ i0)
            → (t ≢ t0) ⊎ (field l vpn ≢ i0)
        differs l t there o = case (same_entry t (field l vpn) t0 i0)
          where
            case :
                ((t ≡ t0) × (field l vpn ≡ i0)) ⊎ ((t ≢ t0) ⊎ (field l vpn ≢ i0))
                → (t ≢ t0) ⊎ (field l vpn ≢ i0)
            case (inr ne) = ne
            case (inl (e, f)) =
                let both = place_eq (sym there ∙ ap places e ∙ here) in
                absurd (not_both l0 vpn q0 i0 o (rw (← both.0) (both.1)) (rw (← both.0) f))

    -- A page number whose walk reaches the entry gets what the new entry gives.
    pub Rewrites-lookup :
        (vpn : ℕ)
        → vpn < 2 ^ 27
        → Reaches m ident root vpn l0 t0
        → field l0 vpn ≡ i0
        → is_link p ≡ false
        → lookup m' ident root vpn ≡ visit l0 p none
    Rewrites-lookup vpn h reaches at plain =
        Reaches-lookup (Reaches-transfer tree m' h above reaches)
        ∙ walk_plain m' ident l0 t0 vpn p (rw at rewrites.changed) plain
      where
        above :
            (l t : ℕ)
            → Serves places l vpn t
            → l0 < l
            → load_pte m' (t + 8 * field l vpn) ≡ load_pte m (t + 8 * field l vpn)
        above l t there higher =
            rewrites.others t (field l vpn) (place l (prefix l vpn)) there (field-lt l vpn)
              (inl (λ e. absurd (omega (arith, (place_eq (sym there ∙ ap places e ∙ here)).0))))
