-- ===== src/Page/Translated.antt =====
-- The pages that `enable_paging` of src/page.c maps, one by one: the kernel's, and all of memory.
use fifth_kernel.Base.{
  ℕ, zero, suc, ◌+◌, ◌-◌, ◌*◌, ◌/◌, ◌^◌, ◌≤◌, ◌<◌, ◌≡◌, ◌≢◌, refl, sym, ◌∙◌, arith, true, false,
  none, some, ◌==◌, ◌&&◌, if◌then◌else◌, ◌⊎◌, inl, inr, Bool-cases, List, [], ◌∷◌, ◌++◌, ==→eq,
  not_==→ne, ne→not_==, eq→==,
}
use fifth_kernel.Machine.{Machine, u64, Location}
use fifth_kernel.Page.MapType
use fifth_kernel.Page.Walk.{Leaf}
use fifth_kernel.Page.Boot.{kernel_start_page, kernel_end_page}
use fifth_kernel.Page.Paged.{page_leaf}
use fifth_kernel.Page.Requests.{Request, first_request, or_else}
use fifth_kernel.Page.BootList.{pages_of, kernel_page, location_pages, locations_pages, request}
use fifth_kernel.Page.Fill.{memory_offset}

pub first_request-append :
    (xs ys : List Request) (v : ℕ)
    → first_request (xs ++ ys) v ≡ or_else (first_request xs v) (first_request ys v)
unfolding first_request
first_request-append [] ys v = refl
first_request-append (q ∷ xs) ys v = elim (Bool-cases (v == q.vpn)) [
  | inl same ↦ rw same refl
  | inr other ↦ rw other (first_request-append xs ys v)
]

-- A loop none of whose rounds asks for the page.
pub pages_of-misses :
    (left page : ℕ) (f : ℕ → List Request) (v : ℕ)
    → ((p : ℕ) → page ≤ p → p < page + left → first_request (f p) v ≡ none)
    → first_request (pages_of left page f) v ≡ none
unfolding pages_of first_request
pages_of-misses zero page f v misses = refl
pages_of-misses (suc left) page f v misses =
    first_request-append (f page) (pages_of left (page + 1) f) v
    ∙ rw (misses page (omega arith) (omega arith))
        (pages_of-misses left (page + 1) f v (λ p low high. misses p (omega arith) (omega arith)))

-- A loop one of whose rounds asks for the page.
pub pages_of-hits :
    (left page : ℕ) (f : ℕ → List Request) (v hit : ℕ) (asked : Leaf)
    → page ≤ hit
    → hit < page + left
    → first_request (f hit) v ≡ some asked
    → ((p : ℕ) → page ≤ p → p < page + left → p ≢ hit → first_request (f p) v ≡ none)
    → first_request (pages_of left page f) v ≡ some asked
unfolding pages_of
pages_of-hits zero page f v hit asked low high e misses = absurd (omega arith)
pages_of-hits (suc left) page f v hit asked low high e misses =
    first_request-append (f page) (pages_of left (page + 1) f) v ∙ elim (Bool-cases (page == hit)) [
      | inl same ↦ rw (==→eq page hit same, e) refl
      | inr other ↦ rw (misses page (omega arith) (omega arith) (not_==→ne page hit other)) (
          pages_of-hits left (page + 1) f v hit asked (omega (arith, not_==→ne page hit other))
            (omega arith) e (λ p lo hi. misses p (omega arith) (omega arith)))
    ]

-- Every device ends below the higher half.
abbrev pub AreLow : List Location → Type 0
AreLow [] = Unit {0}
AreLow (location ∷ rest) = (location.address + location.size + 4095 < 2 ^ 38) × AreLow rest

-- Where the kernel, the devices and memory lie: below the higher half, the kernel in less than
-- 2^20 pages, and memory where its pages behind `memory_offset` exist.
pub record IsLayout (s : Machine) : Type 0 where
  pub kernel_low : kernel_end_page s < 2 ^ 26
  pub kernel_small : kernel_end_page s < kernel_start_page s + 2 ^ 20
  pub devices_low : AreLow s.device.mapped_locations
  pub memory_low : s.device.ram_start + s.device.ram_size ≤ 4096 * (2 ^ 26 - 2 ^ 20)

pub locations_pages-misses :
    (locations : List Location) (v : ℕ)
    → AreLow locations
    → 2 ^ 26 ≤ v
    → first_request (locations_pages locations) v ≡ none
unfolding locations_pages first_request
locations_pages-misses [] v low high = refl
locations_pages-misses (location ∷ rest) v (low, lows) high =
    first_request-append (location_pages location) (locations_pages rest) v
    ∙ rw (one (Bool-cases (location.address == 0 && location.size == 0)))
        (locations_pages-misses rest v lows high)
  where
    one :
        ((location.address == 0 && location.size == 0) ≡ true)
          ⊎ ((location.address == 0 && location.size == 0) ≡ false)
        → first_request (location_pages location) v ≡ none
    one (inl unused) = rw unused refl
    one (inr used) = rw used (
        pages_of-misses
          (u64 (location.address + location.size + 4095) / 4096 + 1 - location.address / 4096)
          (location.address / 4096) (λ page. request page page ∷ []) v
          (λ p lo hi. rw (ne→not_== v p (omega arith)) refl))

module _ (s : Machine) (layout : IsLayout s) where
  abbrev pub first_page : ℕ
  first_page = kernel_start_page s

  abbrev pub rounds : ℕ
  rounds = kernel_end_page s + 1 - first_page

  abbrev pub higher : (q : ℕ) → ℕ
  higher q = u64 (MapType.higher_half_vpn + q + 2 ^ 64 - first_page)

  pub higher_lem :
      (q : ℕ)
      → first_page ≤ q
      → q ≤ kernel_end_page s
      → higher q ≡ MapType.higher_half_vpn + (q - first_page)
  higher_lem q a b = omega (arith, layout.kernel_low)

  pub kernel_page-low :
      (p q : ℕ)
      → first_page ≤ p
      → p ≤ kernel_end_page s
      → first_page ≤ q
      → q ≤ kernel_end_page s
      → first_request (kernel_page first_page q) p ≡ (if p == q then some (page_leaf q) else none)
  unfolding first_request
  kernel_page-low p q a b c d = elim (Bool-cases (p == q)) [
    | inl same ↦ rw same refl
    | inr other ↦
        rw (other, ne→not_== p (higher q) (omega (arith, higher_lem q c d, layout.kernel_low))) refl
  ]

  pub kernel_page-high :
      (p q : ℕ)
      → first_page ≤ p
      → p ≤ kernel_end_page s
      → first_page ≤ q
      → q ≤ kernel_end_page s
      → first_request (kernel_page first_page q) (MapType.higher_half_vpn + (p - first_page))
        ≡ (if p == q then some (page_leaf q) else none)
  unfolding first_request
  kernel_page-high p q a b c d = elim (Bool-cases (p == q)) [
    | inl same ↦
        rw
          (
            same,
            ne→not_== (MapType.higher_half_vpn + (p - first_page)) q
                (omega (arith, layout.kernel_low)),
            eq→== (MapType.higher_half_vpn + (p - first_page)) (higher q)
                (rw (==→eq p q same) (sym (higher_lem q c d))),
          )
          refl
    | inr other ↦
        rw
          (
            other,
            ne→not_== (MapType.higher_half_vpn + (p - first_page)) q
                (omega (arith, layout.kernel_low)),
            ne→not_== (MapType.higher_half_vpn + (p - first_page)) (higher q)
                (omega (arith, not_==→ne p q other, higher_lem q c d, layout.kernel_low)),
          )
          refl
  ]

  pub kernel_page-memory :
      (i q : ℕ)
      → first_page ≤ q
      → q ≤ kernel_end_page s
      → first_request (kernel_page first_page q) (memory_offset + i) ≡ none
  unfolding first_request
  kernel_page-memory i q c d =
      rw
        (
          ne→not_== (memory_offset + i) q (omega (arith, layout.kernel_low)),
          ne→not_== (memory_offset + i) (higher q)
              (omega (arith, higher_lem q c d, layout.kernel_small)),
        )
        refl
