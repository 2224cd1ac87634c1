-- ===== src/Page/LowerHalf.antt =====
-- `unmap_lower_half_kernel` of src/page.c.
use fifth_kernel.Memory.{IsBytes}
use fifth_kernel.Page.Footprint.{Spares, Spares-refl, Spares-trans}
use fifth_kernel.Base.{
  ℕ, zero, suc, ◌+◌, ◌-◌, ◌^◌, ◌≤◌, ◌<◌, ◌≡◌, ◌≢◌, refl, ap, ◌∙◌, arith, Bool, true, false, ◌&&◌,
  Option, none, some, ◌==◌, leb, if◌then◌else◌, inl, inr, Bool-cases, ==→eq, ℤ, not,
}
use fifth_kernel.Machine.{Machine}
use fifth_kernel.Machine.Returns.{Returns, returns, bind, mono}
use fifth_kernel.Page.{unmap_page, current_pt}
use fifth_kernel.Page.MapType
use fifth_kernel.Page.Walk.{Leaf}
use fifth_kernel.Page.Tree.{Places}
use fifth_kernel.Page.Boot.{
  ignore, for_pages, kernel_start_page, kernel_end_page, unmap_lower_half_kernel,
}
use fifth_kernel.Page.Paged.{IsPaged, AddressSpace, space, Refines, remove_page}
use fifth_kernel.Page.Unmap.{unmap_page-Refines}
use fifth_kernel.Page.RoundTrip.{resolve-given}
use fifth_kernel.Page.Sequence.{Option-cases}
use fifth_kernel.Page.FirstPage.{current}

-- What is left of a leaf by the call that removes a page: a larger leaf stays.
abbrev pub larger_only : Option Leaf → Option Leaf
larger_only none = none
larger_only (some found) = if found.level == 0 then none else some found

remove_page-larger_only :
    (before : AddressSpace) (vpn v : ℕ)
    → (remove_page before vpn).1 v ≡ (if v == vpn then larger_only (before v) else before v)
unfolding remove_page
remove_page-larger_only before vpn v = elim (Bool-cases (v == vpn)) [
  | inl same ↦ elim (Option-cases (before vpn)) [
    | inl free ↦ rw (free, remove_page, same, ap before (==→eq v vpn same) ∙ free) refl
    | inr (found, e) ↦ elim (Bool-cases (found.level == 0)) [
      | inl page ↦
          rw (e, remove_page, page, same, ap before (==→eq v vpn same) ∙ e, larger_only, page) refl
      | inr larger ↦
          rw (e, remove_page, larger, same, ap before (==→eq v vpn same) ∙ e, larger_only, larger)
            refl
    ]
  ]
  | inr other ↦ elim (Option-cases (before vpn)) [
    | inl free ↦ rw (free, remove_page, other) refl
    | inr (found, e) ↦ elim (Bool-cases (found.level == 0)) [
      | inl page ↦ rw (e, remove_page, page, other) refl
      | inr larger ↦ rw (e, remove_page, larger, other) refl
    ]
  ]
]

abbrev pub in_range : (first past v : ℕ) → Bool
in_range first past v = leb first v && not (leb past v)

-- The table behind the calls for the pages from `first` to before `past`.
pub record IsCleared (root first past : ℕ) (s s' : Machine) : Type 0 where
  pub places : Places
  pub paged : IsPaged places root s'
  pub mapped :
      (v : ℕ)
      → v < 2 ^ 27
      → space root s' v
        ≡ (if in_range first past v then larger_only (space root s v) else space root s v)
  pub rest : s' ≡ record s { frames = s'.frames; memory = s'.memory; flushes = s'.flushes }
  pub bytes : IsBytes s.memory → IsBytes s'.memory
  pub spares : Spares root s s'

-- One page and then the others.
range-suc :
    (first past v : ℕ) (x y : Option Leaf)
    → first < past
    → y ≡ (if v == first then larger_only x else x)
    → (if in_range (first + 1) past v then larger_only y else y)
      ≡ (if in_range first past v then larger_only x else x)
range-suc first past v x y h e = elim (Bool-cases (v == first)) [
  | inl same ↦
      let at = ==→eq v first same in
      let out : in_range (first + 1) past v ≡ false = rw at (ground arith) in
      let within : in_range first past v ≡ true = rw at (ground arith) in
      rw (out, within) (e ∙ rw same refl)
  | inr other ↦
      let unmoved : y ≡ x = e ∙ rw other refl in
      let bound : in_range (first + 1) past v ≡ in_range first past v = ground arith in
      rw (unmoved, bound) refl
]

for_pages-IsCleared :
    (root left first : ℕ) (s : Machine) (places : Places)
    → IsPaged places root s
    → root ≢ 0
    → first + left ≤ 2 ^ 27
    → Returns
        (λ _ s'. IsCleared root first (first + left) s s')
        (for_pages left first (λ page. ignore (unmap_page root page MapType.page)) s)
unfolding for_pages
for_pages-IsCleared root zero first s places paged given low = returns record {
  places = places;
  paged = paged;
  mapped = λ v h. (let out : in_range first (first + 0) v ≡ false = ground arith in rw out refl);
  rest = refl;
  bytes = λ h. h;
  spares = Spares-refl root s;
}
for_pages-IsCleared root (suc left) first s places paged given low =
    bind {P = λ _ s1. (code : ℤ) × Refines root s (remove_page (space root s) first) code s1}
      (bind
        (unmap_page-Refines places root root first s paged (resolve-given root s given) given
          (omega arith))
        (λ code s1 refines. returns (code, refines)))
      (λ _ s1 (code, refines).
        mono
          (for_pages-IsCleared root left (first + 1) s1 refines.places refines.paged given
            (omega arith))
          (λ _ s2 cleared. record {
            places = cleared.places;
            paged = cleared.paged;
            mapped = λ v h.
                cleared.mapped v h
                ∙ rw (← moved) (
                    range-suc first (first + 1 + left) v (space root s v) (space root s1 v)
                      (omega arith)
                      (refines.mapped v h ∙ remove_page-larger_only (space root s) first v));
            rest =
                cleared.rest
                ∙ ap {A = Machine} {B = Machine}
                    (λ z. record z { frames = s2.frames; memory = s2.memory; flushes = s2.flushes })
                    refines.rest;
            bytes = λ h. cleared.bytes (refines.bytes h);
            spares = Spares-trans root s s1 s2 refines.spares cleared.spares;
          }))
  where
    moved : first + 1 + left ≡ first + suc left
    moved = omega arith

-- `unmap_lower_half_kernel`, in a well-formed table that `satp` names and with the kernel's pages
-- among those that exist, returns: each page from the kernel's first to the one behind its last loses
-- its leaf, unless that is a larger one, every other page keeps its leaf, the table stays well
-- formed, and no byte outside the tables and the free frames changes.
pub unmap_lower_half_kernel-IsCleared :
    (s : Machine) (places : Places)
    → IsPaged places (current s) s
    → current s ≢ 0
    → kernel_start_page s ≤ kernel_end_page s
    → kernel_end_page s < 2 ^ 27
    → Returns
        (λ _ s'. IsCleared (current s) (kernel_start_page s) (kernel_end_page s + 1) s s')
        (unmap_lower_half_kernel s)
unfolding unmap_lower_half_kernel current_pt
unmap_lower_half_kernel-IsCleared s places paged given order low = rw bound at (
    for_pages-IsCleared (current s) (kernel_end_page s + 1 - kernel_start_page s)
      (kernel_start_page s) s places paged given (omega arith))
  where
    bound :
        kernel_start_page s + (kernel_end_page s + 1 - kernel_start_page s) ≡ kernel_end_page s + 1
    bound = omega arith
