-- ===== src/Page/Small.antt =====
-- The pages that `enable_paging` of src/page.c maps exist.
use fifth_kernel.Base.{
  ℕ, zero, suc, ◌+◌, ◌-◌, ◌/◌, ◌≤◌, ◌<◌, ◌≡◌, arith, true, false, ◌==◌, ◌&&◌, ◌⊎◌, inl, inr,
  Bool-cases, List, [], ◌∷◌, ◌++◌,
}
use fifth_kernel.Machine.{u64, Location}
use fifth_kernel.Page.Requests.{Request, AreSmall}
use fifth_kernel.Page.BootList.{request, pages_of, location_pages, locations_pages}
use fifth_kernel.Page.Translated.{AreLow}

pub AreSmall-append : (xs ys : List Request) → AreSmall xs → AreSmall ys → AreSmall (xs ++ ys)
AreSmall-append [] ys a b = b
AreSmall-append (q ∷ xs) ys (small, a) b = (small, AreSmall-append xs ys a b)

pub pages_of-AreSmall :
    (left page : ℕ) (f : ℕ → List Request)
    → ((p : ℕ) → page ≤ p → p < page + left → AreSmall (f p))
    → AreSmall (pages_of left page f)
unfolding pages_of
pages_of-AreSmall zero page f small = tt
pages_of-AreSmall (suc left) page f small =
    AreSmall-append (f page) (pages_of left (page + 1) f) (small page (omega arith) (omega arith))
      (pages_of-AreSmall left (page + 1) f (λ p lo hi. small p (omega arith) (omega arith)))

pub locations_pages-AreSmall :
    (locations : List Location) → AreLow locations → AreSmall (locations_pages locations)
unfolding locations_pages
locations_pages-AreSmall [] low = tt
locations_pages-AreSmall (location ∷ rest) (low, lows) =
    AreSmall-append (location_pages location) (locations_pages rest)
      (one (Bool-cases (location.address == 0 && location.size == 0)))
      (locations_pages-AreSmall rest lows)
  where
    one :
        ((location.address == 0 && location.size == 0) ≡ true)
          ⊎ ((location.address == 0 && location.size == 0) ≡ false)
        → AreSmall (location_pages location)
    one (inl unused) = rw unused tt
    one (inr used) = rw used (
        pages_of-AreSmall
          (u64 (location.address + location.size + 4095) / 4096 + 1 - location.address / 4096)
          (location.address / 4096) (λ page. request page page ∷ []) (λ p lo hi. (omega arith, tt)))
