-- ===== src/Page/Group.antt =====
-- Pages of src/page.c that one table of level 0 serves.
use fifth_kernel.Page.RoundTrip.{resolve-given}
use fifth_kernel.Base.{
  ℕ, zero, suc, ◌+◌, ◌*◌, ◌^◌, ◌≤◌, ◌<◌, ◌≡◌, ◌≢◌, refl, sym, ap, ◌∙◌, arith, true, false, Option,
  none, some, ◌==◌, inl, inr, Bool-cases, ne→not_==, ◌/◌, ◌%◌,
}
use fifth_kernel.Memory.{Memory}
use fifth_kernel.Machine.{Machine, done}
use fifth_kernel.Machine.Returns.{Returns, returns, both}
use fifth_kernel.Page.{is_leaf, table_of, at, map_level, map_entry, map_page, walk_to, descend}
use fifth_kernel.Page.MapType
use fifth_kernel.Page.Entry.{Pte, load_pte}
use fifth_kernel.Page.Walk.{prefix, field, Leaf, leaf, visit, walk}
use fifth_kernel.Page.Tree.{Places, is_link}
use fifth_kernel.Page.Update.{Reaches, start, next}
use fifth_kernel.Page.Paged.{IsPaged, space, Refines, insert_page}
use fifth_kernel.Page.Kept.{Kept-refl}
use fifth_kernel.Page.Descend.{descend-suc, none_not_some}
use fifth_kernel.Page.Map.{map_entry-Refines, arrive-page}

prefix_same : (l v vpn : ℕ) → prefix 0 v ≡ prefix 0 vpn → prefix l v ≡ prefix l vpn
unfolding prefix
prefix_same zero v vpn h = h
prefix_same (suc l) v vpn h = ap (λ z. z / 512) (prefix_same l v vpn h)

pub field_same : (l v vpn : ℕ) → prefix 0 v ≡ prefix 0 vpn → field (suc l) v ≡ field (suc l) vpn
unfolding field
field_same l v vpn h = ap (λ z. z % 512) (prefix_same l v vpn h)

-- Two page numbers with the same upper part are walked alike, down to level 0.
pub Reaches-prefix :
    {m : Memory} {ident root vpn l t : ℕ} (v : ℕ)
    → prefix 0 v ≡ prefix 0 vpn
    → Reaches m ident root vpn l t
    → Reaches m ident root v l t
Reaches-prefix v same (start p q) = start p q
Reaches-prefix {vpn = vpn} v same (next {l} {t} r link e) =
    let eq = field_same l v vpn same in next (Reaches-prefix v same r) (rw eq link) (rw eq e)

visit_cases :
    (l : ℕ) (e : Pte) (rest : Option Leaf) {found : Leaf}
    → visit l e rest ≡ some found
    → found.level ≢ l
    → (is_link e ≡ true) × (rest ≡ some found)
visit_cases l e rest {found} h other = elim (Bool-cases (e.v == 0)) [
  | inl invalid ↦ absurd (none_not_some (rw invalid at h))
  | inr valid ↦ elim (Bool-cases (is_leaf e)) [
    | inl q ↦
        let end : some (leaf l e) ≡ some found = rw (valid, q) at h in
        absurd (other (sym (level_of (leaf l e) found end)))
    | inr q ↦ (rw (valid, q), rw (valid, q) at h)
  ]
]
  where
    level_of : (a b : Leaf) → some a ≡ some b → a.level ≡ b.level
    level_of a b eq = ap (λ z. elim z [ none ↦ 0 | some y ↦ y.level ]) eq

-- The table of level 0 that serves a page, if there is one.
abbrev pub Tabled : Memory → (ident root vpn : ℕ) → Type 0
Tabled m ident root vpn = (t : ℕ) × Reaches m ident root vpn 0 t

-- A page that a page leaf covers has its table.
walk-Tabled :
    (m : Memory) (ident root vpn l t : ℕ) {found : Leaf}
    → Reaches m ident root vpn l t
    → walk m ident l t vpn ≡ some found
    → found.level ≡ 0
    → Tabled m ident root vpn
unfolding walk
walk-Tabled m ident root vpn zero t reaches h page = (t, reaches)
walk-Tabled m ident root vpn (suc l) t {found} reaches h page =
    let e = load_pte m (t + 8 * field (suc l) vpn) in
    let (link, below) =
      visit_cases (suc l) e (walk m ident l (table_of ident e) vpn) h (omega arith) in
    walk-Tabled m ident root vpn l (table_of ident e) (next reaches link refl) below page

map_level-linked :
    (s : Machine) (entry : ℕ)
    → is_link (load_pte s.memory entry) ≡ true
    → map_level entry s ≡ done (at (table_of s.ident_map_addr (load_pte s.memory entry))) s
unfolding map_level
map_level-linked s entry link =
    let (valid, no_leaf) = link_cases (load_pte s.memory entry) link in rw (valid, no_leaf)
  where
    link_cases : (e : Pte) → is_link e ≡ true → ((e.v == 0) ≡ false) × (is_leaf e ≡ false)
    link_cases e h = (ground arith, ground arith)

Reaches-le : {m : Memory} {ident root vpn l t : ℕ} → Reaches m ident root vpn l t → l ≤ 2
Reaches-le (start p q) = omega arith
Reaches-le (next r link e) = omega (arith, Reaches-le r)

-- The loop of `map_page` runs down to a table that is there without a change.
descend-Tabled :
    (s : Machine) (root vpn l t : ℕ)
    → Reaches s.memory s.ident_map_addr root vpn l t
    → descend map_level 2 vpn root s ≡ descend map_level l vpn t s
descend-Tabled s root vpn l t (start p q) = rw (p, q)
descend-Tabled s root vpn l t (next {t = above} r link e) =
    descend-Tabled s root vpn (suc l) above r
    ∙ descend-suc map_level l vpn above s (Reaches-le r)
    ∙ (rw (map_level-linked s (above + 8 * field (suc l) vpn) link, e))

map_entry-frames :
    (s : Machine) (ppn entry : ℕ) → Returns (λ _ s'. s'.frames ≡ s.frames) (map_entry ppn entry s)
unfolding map_entry
map_entry-frames s ppn entry = elim (Bool-cases ((load_pte s.memory entry).v == 0)) [
  | inl free ↦ rw free (returns refl)
  | inr valid ↦ rw valid (returns refl)
]

module _ {places : Places} {root : ℕ} (s : Machine) (paged : IsPaged places root s)
    (given : root ≢ 0) where
  -- Where the table is there, `map_page` takes no frame.
  pub map_page-Tabled :
      (ppn vpn : ℕ)
      → vpn < 2 ^ 27
      → Tabled s.memory s.ident_map_addr root vpn
      → Returns
          (λ code s'.
            Refines root s (insert_page (space root s) vpn ppn) code s' × (s'.frames ≡ s.frames))
          (map_page root ppn vpn MapType.page s)
  unfolding map_page walk_to descend
  map_page-Tabled ppn vpn small (t, reaches) =
      rw
        (
          resolve-given root s given,
          ne→not_== root 0 given,
          descend-Tabled s root vpn 0 t reaches,
          descend,
          arrive-page (map_entry ppn) vpn t,
        )
        (both
          (map_entry-Refines s s ppn t small (Kept-refl s paged) reaches (omega arith) (inl refl))
          (map_entry-frames s ppn (t + 8 * field 0 vpn)))

  -- A page has its table, if a page leaf covers a page of the same table.
  pub space-Tabled :
      (v vpn : ℕ) {found : Leaf}
      → space root s v ≡ some found
      → found.level ≡ 0
      → prefix 0 vpn ≡ prefix 0 v
      → Tabled s.memory s.ident_map_addr root vpn
  space-Tabled v vpn mapped page same =
      let (t, reaches) =
        walk-Tabled s.memory s.ident_map_addr root v 2 root (start refl refl) mapped page in
      (t, Reaches-prefix vpn same reaches)
