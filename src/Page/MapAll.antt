-- ===== src/Page/MapAll.antt =====
-- A list of pages that src/page.c maps at boot: what the table is behind the last one.
use fifth_kernel.Memory.{IsBytes}
use fifth_kernel.Frame.Lowest.{Held, Filled, Filled-refl, Filled-trans}
use fifth_kernel.Page.Footprint.{Spares, Spares-refl, Spares-trans}
use fifth_kernel.Base.{
  ℕ, ◌+◌, ◌*◌, ◌^◌, ◌≤◌, ◌<◌, ◌≡◌, ◌≢◌, refl, sym, ap, ◌∙◌, arith, Bool, true, false, none, some,
  inl, inr, Bool-cases, List, [], ◌∷◌, ℤ, Option,
}
use fifth_kernel.Machine.{Machine}
use fifth_kernel.Machine.Returns.{Returns, returns, bind, mono}
use fifth_kernel.Page.{map_page}
use fifth_kernel.Page.MapType
use fifth_kernel.Page.Walk.{Leaf, prefix}
use fifth_kernel.Page.Tree.{Places}
use fifth_kernel.Page.Paged.{IsPaged, space, available, Refines, insert_page, AddressSpace}
use fifth_kernel.Page.Map.{map_page-Refines}
use fifth_kernel.Page.RoundTrip.{resolve-given}
use fifth_kernel.Page.Group.{map_page-Tabled, space-Tabled}
use fifth_kernel.Page.Requests.{
  Request, map_all, AreSmall, after, member, new_tables, HasPages, Holds, insert_page-after,
  after-HasPages, after-cons, Holds-after, or_else, first_request,
}

-- The frames that one request may take, where `seen` are the upper parts with a table.
abbrev cost : Bool → ℕ
cost true = 0
cost false = 2

-- The upper parts with a table behind the request.
abbrev next : Bool → ℕ → List ℕ → List ℕ
next true p seen = seen
next false p seen = p ∷ seen

new_tables-cons :
    (seen : List ℕ) (q : Request) (qs : List Request)
    → (let p = prefix 0 q.vpn in
        2 * new_tables seen (q ∷ qs)
        ≡ cost (member p seen) + 2 * new_tables (next (member p seen) p seen) qs)
unfolding new_tables
new_tables-cons seen q qs = elim (Bool-cases (member (prefix 0 q.vpn) seen)) [
  | inl old ↦ rw (new_tables, old) (omega arith)
  | inr new ↦ rw (new_tables, new) (omega arith)
]

Holds-next :
    (a : AddressSpace) (p : ℕ) (seen : List ℕ)
    → Holds a (p ∷ seen)
    → Holds a (next (member p seen) p seen)
Holds-next a p seen holds = elim (Bool-cases (member p seen)) [
  | inl old ↦ rw old (λ g is. holds g (ground (arith, is)))
  | inr new ↦ rw new holds
]

-- What a step needs of the table, and what it gives back.
abbrev pub Ready : ℕ → Machine → List ℕ → Type 0
Ready root s seen = HasPages (space root s) × Holds (space root s) seen

module _ (root : ℕ) (given : root ≢ 0) where
  -- The table behind the requests `qs`, where the upper parts `seen` had a table before.
  pub record Mapped (s : Machine) (qs : List Request) (seen : List ℕ) (s' : Machine) : Type 0 where
    pub places : Places
    pub paged : IsPaged places root s'
    pub mapped : (v : ℕ) → v < 2 ^ 27 → space root s' v ≡ after (space root s) qs v
    pub rest : s' ≡ record s { frames = s'.frames; memory = s'.memory; flushes = s'.flushes }
    pub held : Held s.frames s'.frames
    pub filled : Filled s.frames s'.frames
    pub bytes : IsBytes s.memory → IsBytes s'.memory
    pub frames_left : available s ≤ available s' + 2 * new_tables seen qs
    pub spares : Spares root s s'

  abbrev Step : Machine → Request → List ℕ → ℤ → Machine → Type 0
  Step s q seen code s' =
      Refines root s (insert_page (space root s) q.vpn q.ppn) code s'
      × (available s ≤ available s' + cost (member (prefix 0 q.vpn) seen))

  map_page-Step :
      {places : Places} (s : Machine) (q : Request) (seen : List ℕ)
      → IsPaged places root s
      → q.vpn < 2 ^ 27
      → HasPages (space root s)
      → Holds (space root s) seen
      → cost (member (prefix 0 q.vpn) seen) ≤ available s
      → Returns (Step s q seen) (map_page root q.ppn q.vpn MapType.page s)
  map_page-Step {places} s q seen paged small pages holds enough =
      elim (Bool-cases (member (prefix 0 q.vpn) seen)) [
        | inl old ↦
            let (v, below, same, found, e) = holds (prefix 0 q.vpn) old in
            mono
              (map_page-Tabled s paged given q.ppn q.vpn small
                (space-Tabled s paged given v q.vpn e (pages v found below e) (sym same)))
              (λ code s' (refines, frames). (refines, rw (old, frames) (omega arith)))
        | inr new ↦
            mono
              (map_page-Refines places root root q.vpn q.ppn s paged (resolve-given root s given)
                given small (rw new at enough))
              (λ code s' refines. (refines, rw new refines.frames_left))
      ]

  Step-Ready :
      (s s' : Machine) (q : Request) (seen : List ℕ) {code : ℤ}
      → q.vpn < 2 ^ 27
      → Ready root s seen
      → Refines root s (insert_page (space root s) q.vpn q.ppn) code s'
      → ((v : ℕ) → v < 2 ^ 27 → space root s' v ≡ after (space root s) (q ∷ []) v)
        × Ready root s' (next (member (prefix 0 q.vpn) seen) (prefix 0 q.vpn) seen)
  Step-Ready s s' q seen small (pages, holds) refines = (
    eq,
    (
      (λ v found below e.
          after-HasPages (space root s) q pages v found below (sym (eq v below) ∙ e)),
      Holds-next (space root s') (prefix 0 q.vpn) seen
          (Holds-after (space root s) (space root s') q seen small eq holds),
    ),
  )
    where
      eq : (v : ℕ) → v < 2 ^ 27 → space root s' v ≡ after (space root s) (q ∷ []) v
      eq v below = refines.mapped v below ∙ insert_page-after (space root s) q v

  Mapped-trans :
      (s s1 s2 : Machine) (q : Request) (qs : List Request) (seen : List ℕ) {code : ℤ}
      → ((v : ℕ) → v < 2 ^ 27 → space root s1 v ≡ after (space root s) (q ∷ []) v)
      → Step s q seen code s1
      → Mapped s1 qs (next (member (prefix 0 q.vpn) seen) (prefix 0 q.vpn) seen) s2
      → Mapped s (q ∷ qs) seen s2
  Mapped-trans s s1 s2 q qs seen eq (first, left) m = record {
    places = m.places;
    paged = m.paged;
    mapped =
        λ v below. m.mapped v below ∙ after-cons (space root s) (space root s1) q qs v (eq v below);
    rest =
        m.rest
        ∙ ap {A = Machine} {B = Machine}
            (λ z. record z { frames = s2.frames; memory = s2.memory; flushes = s2.flushes })
            first.rest;
    spares = Spares-trans root s s1 s2 first.spares m.spares;
    held = λ f h. m.held f (first.held f h);
    bytes = λ h. m.bytes (first.bytes h);
    filled = Filled-trans s.frames s1.frames s2.frames first.filled m.held m.filled;
    frames_left = omega (arith, left, m.frames_left, new_tables-cons seen q qs);
  }

  -- `map_page` on each page of a list returns, with two free frames at hand for each table of level 0
  -- that the list needs: behind it a page that was mapped is mapped as before, and any other page as
  -- the first request of it says.
  pub map_all-Mapped :
      (qs : List Request) (s : Machine) (seen : List ℕ) {places : Places}
      → IsPaged places root s
      → AreSmall qs
      → Ready root s seen
      → 2 * new_tables seen qs ≤ available s
      → Returns (λ _ s'. Mapped s qs seen s') (map_all root qs s)
  unfolding map_all first_request
  map_all-Mapped [] s seen {places} paged small ready enough = returns record {
    places = places;
    paged = paged;
    mapped = λ v below. or_else_none (space root s v);
    rest = refl;
    held = λ f h. h;
    bytes = λ h. h;
    filled = Filled-refl s.frames;
    frames_left = omega arith;
    spares = Spares-refl root s;
  }
    where
      or_else_none : (x : Option Leaf) → x ≡ or_else x none
      or_else_none none = refl
      or_else_none (some y) = refl
  map_all-Mapped (q ∷ qs) s seen {places} paged (small, rest) ready enough =
      bind {P = λ _ s1. (code : ℤ) × Step s q seen code s1}
        (bind
          (map_page-Step s q seen paged small ready.0 ready.1
            (omega (arith, new_tables-cons seen q qs)))
          (λ code s1 step. returns (code, step)))
        λ _ s1 (code, (refines, left)).
          let (eq, ready') = Step-Ready s s1 q seen small ready refines in
          mono
            (map_all-Mapped qs s1 (next (member (prefix 0 q.vpn) seen) (prefix 0 q.vpn) seen)
              refines.paged rest ready' (omega (arith, new_tables-cons seen q qs)))
            (λ _ s2 m. Mapped-trans s s1 s2 q qs seen eq (refines, left) m)
