-- ===== src/Page/Link.antt =====
-- A new, empty table of src/page.c is linked into an empty entry.
use fifth_kernel.Base.{
  ℕ, zero, suc, ◌+◌, ◌*◌, ◌^◌, ◌<◌, ◌≡◌, ◌≢◌, refl, sym, ap, ◌∙◌, arith, Bool, true, false, Option,
  none, some, ◌==◌, if◌then◌else◌, ◌⊎◌, inl, inr, Bool-cases, ==→eq, ==_refl,
}
use fifth_kernel.Memory.{Memory}
use fifth_kernel.Frame.{Frames}
use fifth_kernel.Page.{table_of}
use fifth_kernel.Page.Entry.{Pte, decode, load_pte}
use fifth_kernel.Page.Walk.{prefix, field, Leaf, visit, walk, lookup, field-lt}
use fifth_kernel.Page.Tree.{Place, place, Places, is_link, IsFramed, IsTree, Serves, walk_same}
use fifth_kernel.Page.Update.{Reaches, start, next, Reaches-Serves, Reaches-transfer, visit_link}
use fifth_kernel.Page.Rewrite.{Rewrites, place_eq, same_entry, walk_plain}

abbrev pub extend : Places → ℕ → Place → Places
extend places pt pl = λ t. if t == pt then some pl else places t

-- Entry `i0` of table `t0`, empty in `m`, links in `m'` to the empty table `pt`.
pub record Links (places : Places) (m m' : Memory) (ident t0 i0 pt : ℕ) (p : Pte) : Type 0 where
  pub rewrites : Rewrites places m m' t0 i0 p
  pub was_empty : (load_pte m (t0 + 8 * i0)).v ≡ 0
  pub link : is_link p ≡ true
  pub to : table_of ident p ≡ pt
  pub empty : (j : ℕ) → j < 512 → load_pte m' (pt + 8 * j) ≡ decode 0
  pub fresh : places pt ≡ none

pub decode-no_link : is_link (decode 0) ≡ false
unfolding decode
decode-no_link = refl

pub empty_visit : (l : ℕ) (a : Option Leaf) → visit l (decode 0) a ≡ none
unfolding decode
empty_visit l a = refl

pub visit_invalid : (l : ℕ) (e : Pte) (a : Option Leaf) → e.v ≡ 0 → visit l e a ≡ none
visit_invalid l e a h = ground arith

-- A walk that starts in an empty table faults.
pub walk_empty :
    (m : Memory) (ident l t vpn : ℕ)
    → ((j : ℕ) → j < 512 → load_pte m (t + 8 * j) ≡ decode 0)
    → walk m ident l t vpn ≡ none
walk_empty m ident l t vpn empty =
    walk_plain m ident l t vpn (decode 0) (empty (field l vpn) (field-lt l vpn)) decode-no_link
    ∙ empty_visit l none

pub walk_invalid :
    (m : Memory) (ident l t vpn : ℕ)
    → (load_pte m (t + 8 * field l vpn)).v ≡ 0
    → walk m ident l t vpn ≡ none
unfolding walk
walk_invalid m ident zero t vpn h = visit_invalid zero (load_pte m (t + 8 * field zero vpn)) _ h
walk_invalid m ident (suc l) t vpn h =
    visit_invalid (suc l) (load_pte m (t + 8 * field (suc l) vpn)) _ h

extend_old :
    (places : Places) (pt t : ℕ) (pl p : Place)
    → places pt ≡ none
    → places t ≡ some p
    → extend places pt pl t ≡ some p
extend_old places pt t pl p fresh old = elim (Bool-cases (t == pt)) [
  | inl e ↦ let clash : some p ≡ none = sym old ∙ ap places (==→eq t pt e) ∙ fresh in cc
  | inr e ↦ rw e old
]

module _ {places : Places} {root : ℕ} {m : Memory} {fs : Frames} {ram_start ident : ℕ}
    (tree : IsTree places root m fs ram_start ident) {m' : Memory} {t0 i0 l0 q0 pt : ℕ} {p : Pte}
    (links : Links places m m' ident t0 i0 pt p) (here : places t0 ≡ some (place (suc l0) q0)) where
  pub Links-IsTree :
      (fs' : Frames)
      → IsFramed fs' ram_start ident pt
      → ((t : ℕ) → IsFramed fs ram_start ident t → IsFramed fs' ram_start ident t)
      → IsTree (extend places pt (place l0 (q0 * 512 + i0))) root m' fs' ram_start ident
  Links-IsTree fs' new old = record {
    root_placed =
        extend_old places pt root (place l0 (q0 * 512 + i0)) (place 2 0) links.fresh
          tree.root_placed;
    framed = λ t pl there. framed t pl there (Bool-cases (t == pt));
    linked = λ t l q i there h link. linked t l q i there h link (Bool-cases (t == pt));
  }
    where
      framed :
          (t : ℕ) (pl : Place)
          → extend places pt (place l0 (q0 * 512 + i0)) t ≡ some pl
          → ((t == pt) ≡ true) ⊎ ((t == pt) ≡ false)
          → IsFramed fs' ram_start ident t
      framed t pl there (inl e) = rw (==→eq t pt e) new
      framed t pl there (inr e) = old t (tree.framed t pl (rw e at there))

      older :
          (t l q i : ℕ)
          → places t ≡ some (place l q)
          → i < 512
          → is_link (load_pte m' (t + 8 * i)) ≡ true
          → ((t ≡ t0) × (i ≡ i0)) ⊎ ((t ≢ t0) ⊎ (i ≢ i0))
          → (k : ℕ) × (l ≡ suc k)
            × (extend places pt
                  (place l0 (q0 * 512 + i0))
                  (table_of ident (load_pte m' (t + 8 * i)))
                ≡ some (place k (q * 512 + i)))
      older t l q i there h link (inl (e, f)) =
          let both = place_eq (sym there ∙ ap places e ∙ here) in
          (l0, both.0, rw (e, f, both.1, links.rewrites.changed, links.to, ==_refl))
      older t l q i there h link (inr ne) =
          let eq = links.rewrites.others t i (place l q) there h ne in
          let before = tree.linked t l q i there h (rw eq at link) in
          (
            before.0,
            before.1,
            rw eq (
                extend_old places pt (table_of ident (load_pte m (t + 8 * i)))
                  (place l0 (q0 * 512 + i0)) (place before.0 (q * 512 + i)) links.fresh before.2),
          )

      linked :
          (t l q i : ℕ)
          → extend places pt (place l0 (q0 * 512 + i0)) t ≡ some (place l q)
          → i < 512
          → is_link (load_pte m' (t + 8 * i)) ≡ true
          → ((t == pt) ≡ true) ⊎ ((t == pt) ≡ false)
          → (k : ℕ) × (l ≡ suc k)
            × (extend places pt
                  (place l0 (q0 * 512 + i0))
                  (table_of ident (load_pte m' (t + 8 * i)))
                ≡ some (place k (q * 512 + i)))
      linked t l q i there h link (inl e) =
          let no : is_link (load_pte m' (t + 8 * i)) ≡ false =
            rw (==→eq t pt e, links.empty i h) decode-no_link in
          absurd (clash (is_link (load_pte m' (t + 8 * i))) no link)
        where
          clash : (b : Bool) → b ≡ false → b ≡ true → ⊥
          clash b x y = cc
      linked t l q i there h link (inr e) =
          older t l q i (rw e at there) h link (same_entry t i t0 i0)

  new_fault : (vpn : ℕ) → field (suc l0) vpn ≡ i0 → walk m' ident (suc l0) t0 vpn ≡ none
  unfolding walk
  new_fault vpn f =
      rw (f, links.rewrites.changed)
        (visit_link (suc l0) p _ links.link
          ∙ (rw links.to (walk_empty m' ident l0 pt vpn links.empty)))

  pub Links-lookup : (vpn : ℕ) → vpn < 2 ^ 27 → lookup m' ident root vpn ≡ lookup m ident root vpn
  Links-lookup vpn h =
      walk_same tree m' vpn 2 root (Reaches-Serves tree h (start refl refl))
        λ l t there. at_entry l t there (same_entry t (field l vpn) t0 i0)
    where
      now_fault :
          (l : ℕ) {t : ℕ} → l ≡ suc l0 → t ≡ t0 → field l vpn ≡ i0 → walk m' ident l t vpn ≡ none
      now_fault l eq e f = rw (eq, e) (new_fault vpn (rw eq at f))

      at_entry :
          (l t : ℕ)
          → Serves places l vpn t
          → ((t ≡ t0) × (field l vpn ≡ i0)) ⊎ ((t ≢ t0) ⊎ (field l vpn ≢ i0))
          → (load_pte m' (t + 8 * field l vpn) ≡ load_pte m (t + 8 * field l vpn))
            ⊎ (walk m' ident l t vpn ≡ walk m ident l t vpn)
      at_entry l t there (inr ne) =
          inl (
            links.rewrites.others t (field l vpn) (place l (prefix l vpn)) there (field-lt l vpn)
              ne)
      at_entry l t there (inl (e, f)) =
          let both = place_eq (sym there ∙ ap places e ∙ here) in
          inr (
            now_fault l both.0 e f ∙ sym (walk_invalid m ident l t vpn (rw (e, f) links.was_empty)))

  -- A walk that came to the entry goes on to the new table.
  pub Links-Reaches :
      (vpn : ℕ)
      → vpn < 2 ^ 27
      → Reaches m ident root vpn (suc l0) t0
      → field (suc l0) vpn ≡ i0
      → Reaches m' ident root vpn l0 pt
  Links-Reaches vpn h reaches at =
      next (Reaches-transfer tree m' h above reaches) (rw (at, links.rewrites.changed) links.link)
        (rw (at, links.rewrites.changed) (sym links.to))
    where
      above :
          (l t : ℕ)
          → Serves places l vpn t
          → suc l0 < l
          → load_pte m' (t + 8 * field l vpn) ≡ load_pte m (t + 8 * field l vpn)
      above l t there higher =
          links.rewrites.others t (field l vpn) (place l (prefix l vpn)) there (field-lt l vpn)
            (inl (λ e. absurd (omega (arith, (place_eq (sym there ∙ ap places e ∙ here)).0))))
