-- ===== src/Page/BootSpace.antt =====
-- The address space that `enable_paging` of src/page.c is to build, by the addresses of the kernel,
-- the devices and memory, and what its loops ask for.
use fifth_kernel.Base.{
  ℕ, ◌+◌, ◌-◌, ◌/◌, ◌^◌, ◌≤◌, ◌<◌, ◌≡◌, refl, sym, ap, ◌∙◌, arith, Bool, true, false, Option, none,
  some, ◌==◌, leb, ltb, ◌&&◌, ◌||◌, not, if◌then◌else◌, ◌⊎◌, inl, inr, Bool-cases, List, [], ◌∷◌,
  ==→eq, not_==→ne, ne→not_==, eq→==,
}
use fifth_kernel.Machine.{Machine, u64, Location}
use fifth_kernel.Page.Walk.{Leaf}
use fifth_kernel.Page.Paged.{page_leaf}
use fifth_kernel.Page.Requests.{Request, first_request, or_else}
use fifth_kernel.Page.BootList.{request, pages_of, location_pages, locations_pages}
use fifth_kernel.Page.Translated.{first_request-append, pages_of-misses, pages_of-hits, AreLow}

-- The pages from that of the kernel's first byte to the one behind that of its last byte: the loops
-- of the source reach the end, rounded up to pages, itself.
abbrev pub is_kernel_page : Machine → (page : ℕ) → Bool
is_kernel_page s page =
    leb (s.kernel_start_addr / 4096) page && leb page ((s.kernel_end_addr + 4095) / 4096)

-- The like of a device, unless its element of the table is unused.
abbrev pub is_page_of : Location → (page : ℕ) → Bool
is_page_of location page =
    not (location.address == 0 && location.size == 0)
    && leb (location.address / 4096) page
    && leb page ((location.address + location.size + 4095) / 4096)

unfoldable pub is_device_page : List Location → (page : ℕ) → Bool
is_device_page [] page = false
is_device_page (location ∷ rest) page = is_page_of location page || is_device_page rest page

abbrev pub is_memory_page : Machine → (page : ℕ) → Bool
is_memory_page s page =
    leb (s.device.ram_start / 4096) page
    && ltb page ((s.device.ram_start + s.device.ram_size) / 4096)

-- The lower half shows the kernel and the devices where they are, the higher half the kernel from its
-- start on and, 4 GiB behind, memory by its physical addresses.
abbrev pub boot_space : Machine → (vpn : ℕ) → Option Leaf
boot_space s vpn =
    if ltb vpn (2 ^ 26)
    then (if is_kernel_page s vpn || is_device_page s.device.mapped_locations vpn
        then some (page_leaf vpn)
        else none)
    else if is_kernel_page s (s.kernel_start_addr / 4096 + (vpn - 2 ^ 26))
    then some (page_leaf (s.kernel_start_addr / 4096 + (vpn - 2 ^ 26)))
    else if leb (2 ^ 26 + 2 ^ 20) vpn && is_memory_page s (vpn - (2 ^ 26 + 2 ^ 20))
    then some (page_leaf (vpn - (2 ^ 26 + 2 ^ 20)))
    else none

-- A loop at most one of whose rounds asks for the page.
pub pages_of-one :
    (left page : ℕ) (f : ℕ → List Request) (v hit : ℕ)
    → ((p : ℕ)
        → page ≤ p
        → p < page + left
        → first_request (f p) v ≡ (if p == hit then some (page_leaf hit) else none))
    → first_request (pages_of left page f) v
      ≡ (if leb page hit && ltb hit (page + left) then some (page_leaf hit) else none)
pages_of-one left page f v hit asks = elim (Bool-cases (leb page hit && ltb hit (page + left))) [
  | inl within ↦
      let lo : page ≤ hit = ground (arith, within) in
      let hi : hit < page + left = ground (arith, within) in
      rw within (
        pages_of-hits left page f v hit (page_leaf hit) lo hi
          (asks hit lo hi ∙ rw (eq→== hit hit refl) refl)
          (λ p a b ne. asks p a b ∙ rw (ne→not_== p hit ne) refl))
  | inr out ↦ rw out (
      pages_of-misses left page f v (λ p a b.
        asks p a b ∙ rw (ne→not_== p hit (λ e. absurd (ground (arith, out, e, a, b)))) refl))
]

pub self_request :
    (v p : ℕ) → first_request (request p p ∷ []) v ≡ (if p == v then some (page_leaf v) else none)
unfolding first_request
self_request v p = elim (Bool-cases (p == v)) [
  | inl same ↦ rw (==→eq p v same, eq→== v v refl) refl
  | inr other ↦ rw (other, ne→not_== v p (λ e. not_==→ne p v other (sym e))) refl
]

pub locations_pages-asked :
    (locations : List Location) (v : ℕ)
    → AreLow locations
    → first_request (locations_pages locations) v
      ≡ (if is_device_page locations v then some (page_leaf v) else none)
unfolding locations_pages first_request is_device_page
locations_pages-asked [] v low = refl
locations_pages-asked (location ∷ rest) v (low, lows) =
    first_request-append (location_pages location) (locations_pages rest) v
    ∙ rw
        (
          one (Bool-cases (location.address == 0 && location.size == 0)),
          locations_pages-asked rest v lows,
        )
        (both (is_page_of location v) (is_device_page rest v))
  where
    both :
        (a b : Bool)
        → or_else (if a then some (page_leaf v) else none) (if b then some (page_leaf v) else none)
          ≡ (if a || b then some (page_leaf v) else none)
    both true b = refl
    both false b = refl

    one :
        ((location.address == 0 && location.size == 0) ≡ true)
          ⊎ ((location.address == 0 && location.size == 0) ≡ false)
        → first_request (location_pages location) v
          ≡ (if is_page_of location v then some (page_leaf v) else none)
    one (inl unused) = rw unused refl
    one (inr used) = rw used (
        pages_of-one
          (u64 (location.address + location.size + 4095) / 4096 + 1 - location.address / 4096)
          (location.address / 4096) (λ page. request page page ∷ []) v v
          (λ p lo hi. self_request v p)
        ∙ ap (λ b. if b then some (page_leaf v) else none) within)
      where
        within :
            (leb (location.address / 4096) v
              && ltb v (
                  location.address / 4096
                  + (u64 (location.address + location.size + 4095) / 4096
                      + 1
                      - location.address / 4096)))
            ≡ (leb (location.address / 4096) v
                && leb v ((location.address + location.size + 4095) / 4096))
        within = ground arith
