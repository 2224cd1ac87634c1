-- ===== src/Page/Requests.antt =====
-- The boot loops of src/page.c as lists of pages to map, one `map_page` after the other.
use fifth_kernel.Page.Descend.{none_not_some}
use fifth_kernel.Base.{
  ℕ, suc, ◌^◌, ◌<◌, ◌≡◌, refl, sym, ap, ◌∙◌, Bool, true, false, Option, none, some, ◌==◌,
  if◌then◌else◌, inl, inr, Bool-cases, List, [], ◌∷◌, ◌||◌, ==→eq, ==_refl,
}
use fifth_kernel.Machine.{Cmd, pure, ◌>>◌}
use fifth_kernel.Page.{map_page}
use fifth_kernel.Page.MapType
use fifth_kernel.Page.Walk.{Leaf, prefix}
use fifth_kernel.Page.Boot.{ignore}
use fifth_kernel.Page.Paged.{AddressSpace, page_leaf, insert_page}
use fifth_kernel.Page.Sequence.{Option-cases}

-- The virtual page `vpn` is to be mapped to the physical page `ppn`.
pub record Request : Type 0 where
  pub ppn : ℕ
  pub vpn : ℕ

unfoldable pub map_all : (root : ℕ) → List Request → Cmd (Unit {0})
map_all root [] = pure tt
map_all root (q ∷ qs) = ignore (map_page root q.ppn q.vpn MapType.page) >> map_all root qs

abbrev pub AreSmall : List Request → Type 0
AreSmall [] = Unit {0}
AreSmall (q ∷ qs) = (q.vpn < 2 ^ 27) × AreSmall qs

-- The leaf that the first request of a page asks for.
unfoldable pub first_request : List Request → ℕ → Option Leaf
first_request [] v = none
first_request (q ∷ qs) v = if v == q.vpn then some (page_leaf q.ppn) else first_request qs v

abbrev pub or_else : Option Leaf → Option Leaf → Option Leaf
or_else none asked = asked
or_else (some found) asked = some found

-- The address space after the requests: a page that is mapped stays as it is.
abbrev pub after : AddressSpace → List Request → AddressSpace
after before qs v = or_else (before v) (first_request qs v)

abbrev pub member : ℕ → List ℕ → Bool
member x [] = false
member x (y ∷ ys) = x == y || member x ys

-- How many tables of level 0 the requests need, but for those of the upper parts `seen`.
unfoldable pub new_tables : (seen : List ℕ) → List Request → ℕ
new_tables seen [] = 0
new_tables seen (q ∷ qs) = elim (member (prefix 0 q.vpn) seen) [
  | true ↦ new_tables seen qs
  | false ↦ suc (new_tables (prefix 0 q.vpn ∷ seen) qs)
]

-- Every leaf is one of a page.
abbrev pub HasPages : AddressSpace → Type 0
HasPages a = (v : ℕ) (found : Leaf) → v < 2 ^ 27 → a v ≡ some found → found.level ≡ 0

-- A page of each upper part in `seen` is mapped.
abbrev pub Holds : AddressSpace → List ℕ → Type 0
Holds a seen =
    (g : ℕ)
    → member g seen ≡ true
    → (v : ℕ) × (v < 2 ^ 27) × (prefix 0 v ≡ g) × (found : Leaf) × (a v ≡ some found)

pub insert_page-after :
    (before : AddressSpace) (q : Request) (v : ℕ)
    → (insert_page before q.vpn q.ppn).1 v ≡ after before (q ∷ []) v
unfolding insert_page first_request
insert_page-after before q v = elim (Option-cases (before q.vpn)) [
  | inl free ↦ elim (Bool-cases (v == q.vpn)) [
    | inl same ↦
        rw (free, insert_page, after, ap before (==→eq v q.vpn same) ∙ free, first_request, same)
    | inr other ↦ rw (free, insert_page, after, first_request, other) (keep (before v))
  ]
  | inr (found, e) ↦ elim (Bool-cases (v == q.vpn)) [
    | inl same ↦ rw (e, insert_page, after, ap before (==→eq v q.vpn same) ∙ e)
    | inr other ↦ rw (e, insert_page, after, first_request, other) (keep (before v))
  ]
]
  where
    keep : (x : Option Leaf) → x ≡ or_else x none
    keep none = refl
    keep (some y) = refl

-- A page that is mapped stays mapped to the same leaf.
after-mapped :
    (a : AddressSpace) (qs : List Request) (v : ℕ) {found : Leaf}
    → a v ≡ some found
    → after a qs v ≡ some found
after-mapped a qs v e = rw (after, e)

-- A request's page is mapped behind it.
after-requested :
    (a : AddressSpace) (q : Request) → (found : Leaf) × (after a (q ∷ []) q.vpn ≡ some found)
unfolding first_request
after-requested a q = elim (Option-cases (a q.vpn)) [
  | inl free ↦ (page_leaf q.ppn, rw (after, free, first_request, ==_refl q.vpn))
  | inr (found, e) ↦ (found, rw (after, e))
]

pub after-HasPages : (a : AddressSpace) (q : Request) → HasPages a → HasPages (after a (q ∷ []))
unfolding first_request
after-HasPages a q pages v found small e = elim (Option-cases (a v)) [
  | inl free ↦ elim (Bool-cases (v == q.vpn)) [
    | inl same ↦ sym (level_of (page_leaf q.ppn) found (rw (after, free, first_request, same) at e))
    | inr other ↦ absurd (none_not_some (rw (after, free, first_request, other) at e))
  ]
  | inr (old, was) ↦
      let same : some old ≡ some found = rw (after, was) at e in
      sym (level_of old found same) ∙ pages v old small was
]
  where
    level_of : (a b : Leaf) → some a ≡ some b → a.level ≡ b.level
    level_of a b eq = ap (λ z. elim z [ none ↦ 0 | some y ↦ y.level ]) eq

-- One request and then the rest.
pub after-cons :
    (a b : AddressSpace) (q : Request) (qs : List Request) (v : ℕ)
    → b v ≡ after a (q ∷ []) v
    → after b qs v ≡ after a (q ∷ qs) v
unfolding first_request
after-cons a b q qs v e = elim (Option-cases (a v)) [
  | inl free ↦ elim (Bool-cases (v == q.vpn)) [
    | inl same ↦ rw (after, e, after, free, first_request, same)
    | inr other ↦ rw (after, e, after, free, first_request, other)
  ]
  | inr (old, was) ↦ rw (after, e, after, was)
]

pub Holds-after :
    (a b : AddressSpace) (q : Request) (seen : List ℕ)
    → q.vpn < 2 ^ 27
    → ((v : ℕ) → v < 2 ^ 27 → b v ≡ after a (q ∷ []) v)
    → Holds a seen
    → Holds b (prefix 0 q.vpn ∷ seen)
Holds-after a b q seen small eq holds g is = elim (Bool-cases (g == prefix 0 q.vpn)) [
  | inl same ↦
      let (found, e) = after-requested a q in
      (q.vpn, small, sym (==→eq g (prefix 0 q.vpn) same), found, eq q.vpn small ∙ e)
  | inr other ↦
      let (v, below, here, found, e) = holds g (rw other at is) in
      (v, below, here, found, eq v below ∙ after-mapped a (q ∷ []) v e)
]
