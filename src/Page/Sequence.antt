-- ===== src/Page/Sequence.antt =====
-- Any sequence of calls of `map_page` and `unmap_page` of src/page.c on 4 KiB pages of one table.
use fifth_kernel.Page.Footprint.{Spares, Spares-refl, Spares-trans}
use fifth_kernel.Base.{
  ℕ, suc, ◌+◌, ◌*◌, ◌^◌, ◌≤◌, ◌<◌, ◌≡◌, ◌≢◌, refl, ◌∙◌, arith, Option, none, some, ◌==◌, ℤ, List,
  [], ◌∷◌, length, inl, inr, ◌⊎◌, Bool-cases,
}
use fifth_kernel.Machine.{Machine, Cmd, pure, ◌>>=◌}
use fifth_kernel.Machine.Returns.{Returns, returns, bind}
use fifth_kernel.Page.{map_page, unmap_page}
use fifth_kernel.Page.MapType
use fifth_kernel.Page.Tree.{Places}
use fifth_kernel.Page.Paged.{
  IsPaged, AddressSpace, space, available, Refines, insert_page, remove_page,
}
use fifth_kernel.Page.Map.{map_page-Refines}
use fifth_kernel.Page.Unmap.{unmap_page-Refines}
use fifth_kernel.Page.RoundTrip.{resolve-given}

pub data Op : Type 0 where
  map : (ppn vpn : ℕ) → Op
  unmap : (vpn : ℕ) → Op

-- The page of a call is one of the 2^27 pages that the table covers.
abbrev pub IsOp : Op → Type 0
IsOp (map ppn vpn) = vpn < 2 ^ 27
IsOp (unmap vpn) = vpn < 2 ^ 27

abbrev pub All : List Op → Type 0
All [] = Unit {0}
All (op ∷ ops) = IsOp op × All ops

abbrev pub run_op : (root : ℕ) → Op → Cmd ℤ
run_op root (map ppn vpn) = map_page root ppn vpn MapType.page
run_op root (unmap vpn) = unmap_page root vpn MapType.page

abbrev pub spec_op : Op → AddressSpace → ℤ × AddressSpace
spec_op (map ppn vpn) before = insert_page before vpn ppn
spec_op (unmap vpn) before = remove_page before vpn

-- The codes that the calls return, in order.
unfoldable pub run_ops : (root : ℕ) → List Op → Cmd (List ℤ)
run_ops root [] = pure []
run_ops root (op ∷ ops) =
    run_op root op >>= λ code. run_ops root ops >>= λ codes. pure (code ∷ codes)

unfoldable pub spec_ops : List Op → AddressSpace → List ℤ × AddressSpace
spec_ops [] before = ([], before)
spec_ops (op ∷ ops) before =
    let (code, after) = spec_op op before in
    let (codes, last) = spec_ops ops after in (code ∷ codes, last)

-- Two address spaces are the same on the pages that exist.
abbrev pub Agree : AddressSpace → AddressSpace → Type 0
Agree a b = (v : ℕ) → v < 2 ^ 27 → a v ≡ b v

abbrev Same : ℤ × AddressSpace → ℤ × AddressSpace → Type 0
Same x y = (x.0 ≡ y.0) × Agree x.1 y.1

pub Option-cases : {A : Type 0} (x : Option A) → (x ≡ none) ⊎ ((y : A) × (x ≡ some y))
Option-cases none = inl refl
Option-cases (some y) = inr (y, refl)

insert_page-Same :
    (a b : AddressSpace) (vpn ppn : ℕ)
    → vpn < 2 ^ 27
    → Agree a b
    → Same (insert_page a vpn ppn) (insert_page b vpn ppn)
unfolding insert_page
insert_page-Same a b vpn ppn h agree = elim (Option-cases (b vpn)) [
  | inl free ↦ rw (agree vpn h, free, insert_page) (refl, (λ v small. rw (agree v small)))
  | inr (found, e) ↦ rw (agree vpn h, e, insert_page) (refl, agree)
]

remove_page-Same :
    (a b : AddressSpace) (vpn : ℕ)
    → vpn < 2 ^ 27
    → Agree a b
    → Same (remove_page a vpn) (remove_page b vpn)
unfolding remove_page
remove_page-Same a b vpn h agree = elim (Option-cases (b vpn)) [
  | inl free ↦ rw (agree vpn h, free, remove_page) (refl, agree)
  | inr (found, e) ↦ elim (Bool-cases (found.level == 0)) [
    | inl page ↦ rw (agree vpn h, e, remove_page, page) (refl, (λ v small. rw (agree v small)))
    | inr larger ↦ rw (agree vpn h, e, remove_page, larger) (refl, agree)
  ]
]

spec_op-Same :
    (a b : AddressSpace) (op : Op) → IsOp op → Agree a b → Same (spec_op op a) (spec_op op b)
spec_op-Same a b (map ppn vpn) small agree = insert_page-Same a b vpn ppn small agree
spec_op-Same a b (unmap vpn) small agree = remove_page-Same a b vpn small agree

spec_ops-Same :
    (a b : AddressSpace) (ops : List Op)
    → All ops
    → Agree a b
    → ((spec_ops ops a).0 ≡ (spec_ops ops b).0) × Agree (spec_ops ops a).1 (spec_ops ops b).1
unfolding spec_ops
spec_ops-Same a b [] h agree = (refl, agree)
spec_ops-Same a b (op ∷ ops) (small, rest) agree =
    let same = spec_op-Same a b op small agree in
    let below = spec_ops-Same (spec_op op a).1 (spec_op op b).1 ops rest same.1 in
    (rw (same.0, below.0), below.1)

run_op-Refines :
    (places : Places) (root : ℕ) (op : Op) (s : Machine)
    → IsPaged places root s
    → root ≢ 0
    → IsOp op
    → 2 ≤ available s
    → Returns (Refines root s (spec_op op (space root s))) (run_op root op s)
run_op-Refines places root (map ppn vpn) s paged given small spare =
    map_page-Refines places root root vpn ppn s paged (resolve-given root s given) given small spare
run_op-Refines places root (unmap vpn) s paged given small spare =
    unmap_page-Refines places root root vpn s paged (resolve-given root s given) given small

-- What the calls return and leave is what the operations on the address space give, and they spare
-- what lies outside the tables and the free frames.
pub record Follows (root : ℕ) (before : Machine) (spec : List ℤ × AddressSpace) (codes : List ℤ)
    (s : Machine) : Type 0 where
  pub places : Places
  pub paged : IsPaged places root s
  pub reported : codes ≡ spec.0
  pub mapped : Agree (space root s) spec.1
  pub spares : Spares root before s

left : (n before after : ℕ) → 2 * suc n ≤ before → before ≤ after + 2 → 2 * n ≤ after
left n before after h taken = omega arith

-- Any sequence of calls of `map_page` and `unmap_page` on 4 KiB pages of one well-formed table, with
-- two free frames at hand for each call, returns: the codes, in order, and the address space at the
-- end are those of the abstract insertions and removals in the same order, and the table is well
-- formed. The calls change no byte outside the tables and the frames that were free.
pub run_ops-Refines :
    (places : Places) (root : ℕ) (ops : List Op) (s : Machine)
    → IsPaged places root s
    → root ≢ 0
    → All ops
    → 2 * length ops ≤ available s
    → Returns (Follows root s (spec_ops ops (space root s))) (run_ops root ops s)
unfolding run_ops spec_ops
run_ops-Refines places root [] s paged given small spare = returns record {
  places = places;
  paged = paged;
  reported = refl;
  mapped = λ v h. refl;
  spares = Spares-refl root s;
}
run_ops-Refines places root (op ∷ ops) s paged given (small, rest) spare =
    bind (run_op-Refines places root op s paged given small (omega arith)) λ code s1 first.
      bind
        (run_ops-Refines first.places root ops s1 first.paged given rest
          (left (length ops) (available s) (available s1) spare first.frames_left))
        λ codes s2 follows.
          let same =
            spec_ops-Same (space root s1) (spec_op op (space root s)).1 ops rest first.mapped in
          returns record {
            places = follows.places;
            paged = follows.paged;
            reported = rw (first.result, follows.reported, same.0);
            mapped = λ v h. follows.mapped v h ∙ same.1 v h;
            spares = Spares-trans root s s1 s2 first.spares follows.spares;
          }
