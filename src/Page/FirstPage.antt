-- ===== src/Page/FirstPage.antt =====
-- The loop of `allocate_a_page` in src/page.c, over the virtual pages.
use fifth_kernel.Page.Descend.{none_not_some}
use fifth_kernel.Base.{
  ℕ, zero, suc, ◌+◌, ◌*◌, ◌^◌, ◌≤◌, ◌<◌, ◌≡◌, ◌≢◌, refl, sym, ap, ◌∙◌, arith, Option, none, some,
  ◌==◌, if◌then◌else◌, ◌⊎◌, inl, inr, ℤ, Bool-cases, ==→eq, not_==→ne,
}
use fifth_kernel.Machine.{Machine, done, pure, u64}
use fifth_kernel.Machine.Returns.{Returns, returns, bind, mono}
use fifth_kernel.Page.{current_pt, resolve}
use fifth_kernel.Page.Err
use fifth_kernel.Page.Walk.{Leaf}
use fifth_kernel.Page.Tree.{Places}
use fifth_kernel.Page.Allocate.{is_success, map_first}
use fifth_kernel.Page.Paged.{IsPaged, space, available, Refines, page_leaf, insert_page}
use fifth_kernel.Page.Map.{map_page-Refines, insert_page_free, insert_page_taken}
use fifth_kernel.Page.Sequence.{Option-cases}

-- The table that `satp` names, at the address where it is seen.
abbrev pub current : Machine → ℕ
current s = u64 (s.csr.satp * 4096 + s.ident_map_addr)

resolve-current : (s : Machine) → resolve 0 s ≡ done (current s) s
unfolding resolve current_pt
resolve-current s = refl

-- Page `v` of the range is mapped to `ppn`, and each one before it was mapped already.
pub record IsFirst (root : ℕ) (s : Machine) (ppn i left v : ℕ) (s' : Machine) : Type 0 where
  pub from : i ≤ v
  pub upto : v < i + left
  pub free : space root s v ≡ none
  pub taken : (u : ℕ) → i ≤ u → u < v → space root s u ≢ none
  pub refines :
      Refines root s
        (Err.success, λ u. if u == v then some (page_leaf ppn) else space root s u)
        Err.success
        s'

-- Every page of the range is mapped, and nothing changed.
pub record IsFull (root : ℕ) (s : Machine) (i left : ℕ) (s' : Machine) : Type 0 where
  pub taken : (u : ℕ) → i ≤ u → u < i + left → space root s u ≢ none
  pub unchanged : s' ≡ s

abbrev pub Searched : (root : ℕ) → Machine → (ppn i left : ℕ) → Option ℕ → Machine → Type 0
Searched root s ppn i left r s' =
    ((v : ℕ) × (r ≡ some v) × IsFirst root s ppn i left v s')
    ⊎ ((r ≡ none) × IsFull root s i left s')

beyond :
    (root : ℕ) (s : Machine) (i bound : ℕ)
    → space root s i ≢ none
    → ((u : ℕ) → i + 1 ≤ u → u < bound → space root s u ≢ none)
    → (u : ℕ) → i ≤ u
    → u < bound
    → space root s u ≢ none
beyond root s i bound busy later u lo hi = elim (Bool-cases (u == i)) [
  | inl same ↦ rw (==→eq u i same) busy
  | inr other ↦ later u (omega (arith, not_==→ne u i other)) hi
]

Searched-next :
    (root : ℕ) (s : Machine) (ppn i left : ℕ)
    → space root s i ≢ none
    → (r : Option ℕ) (s' : Machine) → Searched root s ppn (i + 1) left r s'
    → Searched root s ppn i (suc left) r s'
Searched-next root s ppn i left busy r s' (inl (v, e, first)) = inl (
  v,
  e,
  record {
    from = omega (arith, first.from);
    upto = omega (arith, first.upto);
    free = first.free;
    taken = beyond root s i v busy first.taken;
    refines = first.refines;
  },
)
Searched-next root s ppn i left busy r s' (inr (e, full)) = inr (
  e,
  record {
    taken = beyond root s i (i + suc left) busy (λ u lo hi. full.taken u lo (omega arith));
    unchanged = full.unchanged;
  },
)

pub map_first-Searched :
    (left i ppn : ℕ) (s : Machine) (places : Places)
    → IsPaged places (current s) s
    → current s ≢ 0
    → i + left ≤ 2 ^ 27
    → 2 ≤ available s
    → Returns (Searched (current s) s ppn i left) (map_first left ppn i s)
unfolding map_first
map_first-Searched zero i ppn s places paged given small enough =
    returns (inr (refl, record { taken = λ u lo hi. absurd (omega arith); unchanged = refl }))
map_first-Searched (suc left) i ppn s places paged given small enough =
    bind
      (map_page-Refines places (current s) 0 i ppn s paged (resolve-current s) given (omega arith)
        enough)
      (λ code s1 refines.
        go code s1 refines (Option-cases (space (current s) s i))
          (map_first-Searched left (i + 1) ppn s places paged given (omega arith) enough))
  where
    go :
        (code : ℤ) (s1 : Machine)
        → Refines (current s) s (insert_page (space (current s) s) i ppn) code s1
        → (space (current s) s i ≡ none) ⊎ ((found : Leaf) × (space (current s) s i ≡ some found))
        → Returns (Searched (current s) s ppn (i + 1) left) (map_first left ppn (i + 1) s)
        → Returns
            (Searched (current s) s ppn i (suc left))
            ((if is_success code then pure (some i) else map_first left ppn (i + 1)) s1)
    go code s1 refines (inl free) rest =
        let done_well : code ≡ Err.success =
          refines.result ∙ ap (λ z. z.0) (insert_page_free (space (current s) s) i ppn free) in
        rw done_well (
          returns (
            inl (
              i,
              refl,
              record {
                from = omega arith;
                upto = omega arith;
                free = free;
                taken = λ u lo hi. absurd (omega arith);
                refines =
                    rw (done_well, insert_page_free (space (current s) s) i ppn free) at refines;
              },
            )))
    go code s1 refines (inr (found, e)) rest =
        let failed : code ≡ Err.already_mapped =
          refines.result ∙ ap (λ z. z.0) (insert_page_taken (space (current s) s) i ppn e) in
        rw (failed, refines.refused (rw failed (λ c. cc)))
          (mono rest
            (Searched-next (current s) s ppn i left (λ free. none_not_some (sym free ∙ e))))
