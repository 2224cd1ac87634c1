-- ===== src/Fdt/Facts.antt =====
-- What a device tree tells the kernel, as src/fdt.c keeps it: the range of memory, and the table of
-- devices.
use fifth_kernel.Base.{
  ℕ, zero, suc, ◌+◌, ◌-◌, ◌≡◌, refl, ap, ◌∙◌, arith, if◌then◌else◌, List, [], ◌∷◌, ◌++◌, none, some,
  set, Bool-cases, inl, inr, sym, ◌⊎◌,
}
use fifth_kernel.Memory.{Memory}
use fifth_kernel.Machine.{Machine, Location, DeviceInformation, done}
use fifth_kernel.Fdt.Prop.{free_location, location_at, map_ranges}
use fifth_kernel.Fdt.Locations.{
  is_free, IsKept, IsKept-refl, IsKept-trans, free_location-ge, set-IsKept, Option-cases,
}

pub data Fact : Type 0 where
  memory_at : (start size : ℕ) → Fact
  device_at : Location → Fact

-- A device goes to the first unused element of the table, and is lost if there is none.
unfoldable pub enter : List Location → Location → List Location
enter [] l = []
enter (x ∷ rest) l = if is_free x then l ∷ rest else x ∷ enter rest l

abbrev pub told : DeviceInformation → Fact → DeviceInformation
told d (memory_at start size) = record d { ram_start = start; ram_size = size }
told d (device_at l) = record d { mapped_locations = enter d.mapped_locations l }

-- Later facts come on top of earlier ones.
abbrev pub learned : List Fact → DeviceInformation → DeviceInformation
learned [] d = d
learned (f ∷ fs) d = learned fs (told d f)

pub learned-append :
    (xs ys : List Fact) (d : DeviceInformation) → learned (xs ++ ys) d ≡ learned ys (learned xs d)
learned-append [] ys d = refl
learned-append (x ∷ xs) ys d = learned-append xs ys (told d x)

enter-full :
    (ls : List Location) (j : ℕ) (l : Location) → free_location ls j ≡ none → enter ls l ≡ ls
unfolding enter free_location
enter-full [] j l full = refl
enter-full (x ∷ rest) j l full = elim (Bool-cases (is_free x)) [
  | inl free ↦ ground (arith, rw free at full)
  | inr used ↦ rw used (ap (λ r. x ∷ r) (enter-full rest (j + 1) l (rw used at full)))
]

-- The element that the search finds is the first unused one.
enter-set :
    (ls : List Location) (j k : ℕ) (l : Location)
    → free_location ls j ≡ some k
    → set ls (k - j) l ≡ enter ls l
unfolding enter free_location
enter-set [] j k l found = ground (arith, found)
enter-set (x ∷ rest) j k l found = elim (Bool-cases (is_free x)) [
  | inl free ↦ let here : k - j ≡ 0 = ground (arith, rw free at found) in rw (free, here) refl
  | inr used ↦
      let later : free_location rest (j + 1) ≡ some k = rw used at found in
      let there : k - j ≡ suc (k - (j + 1)) =
        omega (arith, free_location-ge rest (j + 1) k later) in
      rw (used, there) (ap (λ r. x ∷ r) (enter-set rest (j + 1) k l later))
]

enter-first :
    (ls : List Location) (k : ℕ) (l : Location)
    → free_location ls 0 ≡ some k
    → set ls k l ≡ enter ls l
enter-first ls k l found = let all : k - 0 ≡ k = omega arith in rw all at (enter-set ls 0 k l found)

-- The ranges of a device, `left` of them from number `i` on.
unfoldable pub ranges_of : Memory → (ptr size_cells left i : ℕ) → List Fact
ranges_of m ptr size_cells zero i = []
ranges_of m ptr size_cells (suc left) i =
    device_at (location_at m ptr i size_cells) ∷ ranges_of m ptr size_cells left (i + 1)

ranges_of-full :
    (m : Memory) (ptr size_cells left i : ℕ) (d : DeviceInformation)
    → free_location d.mapped_locations 0 ≡ none
    → learned (ranges_of m ptr size_cells left i) d ≡ d
unfolding ranges_of
ranges_of-full m ptr size_cells zero i d full = refl
ranges_of-full m ptr size_cells (suc left) i d full =
    let same : enter d.mapped_locations (location_at m ptr i size_cells) ≡ d.mapped_locations =
      enter-full d.mapped_locations 0 (location_at m ptr i size_cells) full in
    ap {A = List Location} {B = DeviceInformation}
      (λ ls. learned (ranges_of m ptr size_cells left (i + 1)) (record d { mapped_locations = ls }))
      same
    ∙ ranges_of-full m ptr size_cells left (i + 1) d full

-- The loop that records a node's ranges does what they tell.
pub map_ranges-learned :
    (left i ptr size_cells : ℕ) (s : Machine)
    → map_ranges left i ptr size_cells s
      ≡ done tt (record s { device = learned (ranges_of s.memory ptr size_cells left i) s.device })
unfolding map_ranges ranges_of
map_ranges-learned zero i ptr size_cells s = refl
map_ranges-learned (suc left) i ptr size_cells s =
    elim (Option-cases (free_location s.device.mapped_locations 0)) [
      | inl full ↦
          rw (full, map_ranges)
            (ap {A = DeviceInformation} (λ d. done tt (record s { device = d }))
              (sym (ranges_of-full s.memory ptr size_cells (suc left) i s.device full)))
      | inr (k, found) ↦
          rw
            (
              found,
              map_ranges,
              enter-first s.device.mapped_locations k (location_at s.memory ptr i size_cells) found,
            )
            (map_ranges-learned left (i + 1) ptr size_cells (record s {
              device = record s.device {
                mapped_locations =
                    enter s.device.mapped_locations (location_at s.memory ptr i size_cells);
              };
            }))
    ]

-- No device that is in the table is lost.
pub learned-IsKept :
    (fs : List Fact) (d : DeviceInformation)
    → IsKept d.mapped_locations (learned fs d).mapped_locations
learned-IsKept [] d = IsKept-refl d.mapped_locations
learned-IsKept (memory_at start size ∷ fs) d =
    learned-IsKept fs (record d { ram_start = start; ram_size = size })
learned-IsKept (device_at l ∷ fs) d =
    IsKept-trans d.mapped_locations (enter d.mapped_locations l) _
      (enter-IsKept (Option-cases (free_location d.mapped_locations 0)))
      (learned-IsKept fs (record d { mapped_locations = enter d.mapped_locations l }))
  where
    enter-IsKept :
        (free_location d.mapped_locations 0 ≡ none)
          ⊎ ((k : ℕ) × (free_location d.mapped_locations 0 ≡ some k))
        → IsKept d.mapped_locations (enter d.mapped_locations l)
    enter-IsKept (inl full) =
        rw (enter-full d.mapped_locations 0 l full) (IsKept-refl d.mapped_locations)
    enter-IsKept (inr (k, found)) =
        rw (← enter-first d.mapped_locations k l found) (set-IsKept d.mapped_locations k l found)
