-- ===== src/Page/BootList.antt =====
-- The loops of `enable_paging` of src/page.c as one list of pages to map.
use fifth_kernel.Base.{
  ℕ, zero, suc, ◌+◌, ◌-◌, ◌/◌, ◌^◌, ◌≤◌, ◌≡◌, refl, sym, ap, ap₂, ◌∙◌, fun_ext, arith, ◌==◌, ◌&&◌,
  if◌then◌else◌, inl, inr, Bool-cases, List, [], ◌∷◌, ◌++◌,
}
use fifth_kernel.Machine.{
  Machine, Run, done, fault, hang, out_of_fuel, Cmd, pure, and_then, ◌>>◌, u64, Location,
}
use fifth_kernel.Page.{map_page}
use fifth_kernel.Page.MapType
use fifth_kernel.Page.Walk.{prefix}
use fifth_kernel.Page.Boot.{
  ignore, for_pages, identity_map_memory, kernel_start_page, kernel_end_page, map_kernel_page,
  map_location, map_locations,
}
use fifth_kernel.Page.Requests.{Request, map_all, AreSmall, member, new_tables}

abbrev pub request : (ppn vpn : ℕ) → Request
request ppn vpn = record { ppn = ppn; vpn = vpn }

-- What a loop over pages asks for.
unfoldable pub pages_of : (left page : ℕ) → (ℕ → List Request) → List Request
pages_of zero page f = []
pages_of (suc left) page f = f page ++ pages_of left (page + 1) f

-- A page of the kernel at its own place and in the higher half.
abbrev pub kernel_page : (start page : ℕ) → List Request
kernel_page start page =
    request page page ∷ request page (u64 (MapType.higher_half_vpn + page + 2 ^ 64 - start)) ∷ []

abbrev pub kernel_pages : Machine → List Request
kernel_pages s =
    pages_of (kernel_end_page s + 1 - kernel_start_page s) (kernel_start_page s)
      (kernel_page (kernel_start_page s))

abbrev pub location_pages : Location → List Request
location_pages location =
    if location.address == 0 && location.size == 0
    then []
    else pages_of
        (u64 (location.address + location.size + 4095) / 4096 + 1 - location.address / 4096)
        (location.address / 4096) (λ page. request page page ∷ [])

unfoldable pub locations_pages : List Location → List Request
locations_pages [] = []
locations_pages (location ∷ rest) = location_pages location ++ locations_pages rest

-- All of memory, from the offset on.
abbrev pub memory_pages : (page_offset ram_start ram_size : ℕ) → List Request
memory_pages page_offset ram_start ram_size =
    pages_of (u64 (ram_start + ram_size) / 4096 - ram_start / 4096) (ram_start / 4096)
      (λ i. request i (u64 (page_offset + i)) ∷ [])

pub bind_assoc :
    {A B C : Type 0} (r : Run A) (f : A → Cmd B) (g : B → Cmd C)
    → and_then (and_then r f) g ≡ and_then r (λ a s. and_then (f a s) g)
bind_assoc (done a s) f g = refl
bind_assoc fault f g = refl
bind_assoc hang f g = refl
bind_assoc out_of_fuel f g = refl

pub map_all-append :
    (root : ℕ) (xs ys : List Request)
    → map_all root (xs ++ ys) ≡ (map_all root xs >> map_all root ys)
unfolding map_all
map_all-append root [] ys = refl
map_all-append root (q ∷ xs) ys = fun_ext λ s.
    ap {A = Cmd (Unit {0})} {B = Run (Unit {0})}
      (λ k. and_then (ignore (map_page root q.ppn q.vpn MapType.page) s) (λ _. k))
      (map_all-append root xs ys)
    ∙ sym (
        bind_assoc (ignore (map_page root q.ppn q.vpn MapType.page) s) (λ _. map_all root xs)
          (λ _. map_all root ys))

pub for_pages-map_all :
    (root left page : ℕ) (body : ℕ → Cmd (Unit {0})) (f : ℕ → List Request)
    → ((p : ℕ) → body p ≡ map_all root (f p))
    → for_pages left page body ≡ map_all root (pages_of left page f)
unfolding for_pages pages_of map_all
for_pages-map_all root zero page body f same = refl
for_pages-map_all root (suc left) page body f same =
    ap₂ (λ m n. m >> n) (same page) (for_pages-map_all root left (page + 1) body f same)
    ∙ sym (map_all-append root (f page) (pages_of left (page + 1) f))

bind-pure : (r : Run (Unit {0})) → r ≡ and_then r (λ _. pure tt)
bind-pure (done tt s) = refl
bind-pure fault = refl
bind-pure hang = refl
bind-pure out_of_fuel = refl

map_all-single :
    (root ppn vpn : ℕ)
    → ignore (map_page root ppn vpn MapType.page) ≡ map_all root (request ppn vpn ∷ [])
unfolding map_all
map_all-single root ppn vpn = fun_ext λ s. bind-pure (ignore (map_page root ppn vpn MapType.page) s)

pub map_kernel_page-map_all :
    (root start page : ℕ) → map_kernel_page root start page ≡ map_all root (kernel_page start page)
unfolding map_kernel_page map_all
map_kernel_page-map_all root start page =
    ap {A = Cmd (Unit {0})} {B = Cmd (Unit {0})}
      (λ k. ignore (map_page root page page MapType.page) >> k)
      (map_all-single root page (u64 (MapType.higher_half_vpn + page + 2 ^ 64 - start)))

map_location-map_all :
    (root : ℕ) (location : Location)
    → map_location root location ≡ map_all root (location_pages location)
unfolding map_location map_all
map_location-map_all root location =
    elim (Bool-cases (location.address == 0 && location.size == 0)) [
      | inl unused ↦ rw unused refl
      | inr used ↦ rw (used) (
          for_pages-map_all root
            (u64 (location.address + location.size + 4095) / 4096 + 1 - location.address / 4096)
            (location.address / 4096) (λ page. ignore (map_page root page page MapType.page))
            (λ page. request page page ∷ []) (λ page. map_all-single root page page))
    ]

pub map_locations-map_all :
    (root : ℕ) (locations : List Location)
    → map_locations root locations ≡ map_all root (locations_pages locations)
unfolding map_locations map_all locations_pages
map_locations-map_all root [] = refl
map_locations-map_all root (location ∷ rest) =
    ap₂ (λ m n. m >> n) (map_location-map_all root location) (map_locations-map_all root rest)
    ∙ sym (map_all-append root (location_pages location) (locations_pages rest))

pub identity_map_memory-map_all :
    (root page_offset : ℕ) (s : Machine)
    → identity_map_memory root page_offset s
      ≡ map_all root (memory_pages page_offset s.device.ram_start s.device.ram_size) s
unfolding identity_map_memory
identity_map_memory-map_all root page_offset s =
    ap {A = Cmd (Unit {0})} {B = Run (Unit {0})} (λ k. k s)
      (for_pages-map_all root
        (u64 (s.device.ram_start + s.device.ram_size) / 4096 - s.device.ram_start / 4096)
        (s.device.ram_start / 4096)
        (λ i. ignore (map_page root i (u64 (page_offset + i)) MapType.page))
        (λ i. request i (u64 (page_offset + i)) ∷ [])
        (λ i. map_all-single root i (u64 (page_offset + i))))

-- What holds of a list's parts.
pub AreSmall-left : (xs ys : List Request) → AreSmall (xs ++ ys) → AreSmall xs
AreSmall-left [] ys small = tt
AreSmall-left (q ∷ xs) ys (small, rest) = (small, AreSmall-left xs ys rest)

pub new_tables-left :
    (seen : List ℕ) (xs ys : List Request) → new_tables seen xs ≤ new_tables seen (xs ++ ys)
unfolding new_tables
new_tables-left seen [] ys = omega arith
new_tables-left seen (q ∷ xs) ys = elim (Bool-cases (member (prefix 0 q.vpn) seen)) [
  | inl old ↦ rw (new_tables, old) (new_tables-left seen xs ys)
  | inr new ↦ rw (new_tables, new) (omega (arith, new_tables-left (prefix 0 q.vpn ∷ seen) xs ys))
]
