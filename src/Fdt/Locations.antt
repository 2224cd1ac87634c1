-- ===== src/Fdt/Locations.antt =====
-- `mapped_locations` of src/fdt.c, while a node's ranges are recorded.
use fifth_kernel.Base.{
  ℕ, zero, suc, ◌+◌, ◌≤◌, ◌≡◌, ◌≢◌, refl, ap, ◌∙◌, arith, Bool, false, ◌&&◌, ◌==◌, List, [], ◌∷◌,
  Option, none, some, get_elem?, set, length, length-set, Bool-cases, inl, inr, ◌⊎◌,
}
use fifth_kernel.Machine.{Machine, Location}
use fifth_kernel.Machine.Returns.{Returns, returns, mono}
use fifth_kernel.Fdt.Prop.{free_location, location_at, map_ranges}

abbrev pub is_free : Location → Bool
is_free l = l.size == 0 && l.address == 0

-- Every location of the list that was in use is unchanged, and the list is as long as before.
pub record IsKept (ls ls' : List Location) : Type 0 where
  pub same_length : length ls' ≡ length ls
  pub used :
      (j : ℕ) (l : Location)
      → get_elem? ls j ≡ some l
      → is_free l ≡ false
      → get_elem? ls' j ≡ some l

some-injective : (a b : ℕ) → some a ≡ some b → a ≡ b
some-injective a b e = ground (arith, e)

pub Option-cases : (o : Option ℕ) → (o ≡ none) ⊎ ((k : ℕ) × (o ≡ some k))
Option-cases none = inl refl
Option-cases (some k) = inr (k, refl)

pub free_location-ge : (ls : List Location) (j k : ℕ) → free_location ls j ≡ some k → j ≤ k
unfolding free_location
free_location-ge [] j k e = ground (arith, e)
free_location-ge (x ∷ rest) j k e = ground (arith, e, free_location-ge rest (j + 1) k)

-- The search that starts counting at `j` reports no location in use.
free_location_lem :
    (ls : List Location) (j k : ℕ) (l : Location)
    → is_free l ≡ false
    → get_elem? ls k ≡ some l
    → free_location ls j ≢ some (j + k)
unfolding free_location
free_location_lem [] j k l used at e = ground (arith, at)
free_location_lem (x ∷ rest) j zero l used at e =
    ground (arith, at, e, used, free_location-ge rest (j + 1) (j + zero))
free_location_lem (x ∷ rest) j (suc k) l used at e = elim (Bool-cases (is_free x)) [
  | inl free ↦ ground (arith, some-injective j (j + suc k) (rw free at e))
  | inr busy ↦
      let next : j + suc k ≡ j + 1 + k = omega arith in
      free_location_lem rest (j + 1) k l used at (rw (busy, next) at e)
]

get_elem?-set :
    (ls : List Location) (i j : ℕ) (v : Location)
    → i ≢ j
    → get_elem? (set ls i v) j ≡ get_elem? ls j
get_elem?-set [] i j v ne = refl
get_elem?-set (x ∷ ls) zero zero v ne = absurd (ne refl)
get_elem?-set (x ∷ ls) zero (suc j) v ne = refl
get_elem?-set (x ∷ ls) (suc i) zero v ne = refl
get_elem?-set (x ∷ ls) (suc i) (suc j) v ne = get_elem?-set ls i j v (λ e. ne (ap suc e))

pub set-IsKept :
    (ls : List Location) (k : ℕ) (v : Location)
    → free_location ls 0 ≡ some k
    → IsKept ls (set ls k v)
set-IsKept ls k v found = record {
  same_length = length-set ls k v;
  used = λ j l at busy.
      get_elem?-set ls k j v (λ e.
        free_location_lem ls 0 j l busy at
          (found ∙ ap {A = ℕ} {B = Option ℕ} some (e ∙ (omega arith))))
      ∙ at;
}

pub IsKept-refl : (a : List Location) → IsKept a a
IsKept-refl a = record { same_length = refl; used = λ j l at busy. at }

pub IsKept-trans : (a b c : List Location) → IsKept a b → IsKept b c → IsKept a c
IsKept-trans a b c p q = record {
  same_length = q.same_length ∙ p.same_length;
  used = λ j l at busy. q.used j l (p.used j l at busy) busy;
}

-- The loop that records a node's ranges returns, leaves every location that was in use as it was,
-- keeps the table's length, and changes nothing of the kernel's state but that table.
pub map_ranges-IsKept :
    (left i ptr size_cells : ℕ) (s : Machine)
    → Returns
        (λ _ s'.
          IsKept s.device.mapped_locations s'.device.mapped_locations
          × (s' ≡ record s {
            device = record s.device { mapped_locations = s'.device.mapped_locations };
          }))
        (map_ranges left i ptr size_cells s)
unfolding map_ranges
map_ranges-IsKept zero i ptr size_cells s = returns (IsKept-refl s.device.mapped_locations, refl)
map_ranges-IsKept (suc left) i ptr size_cells s =
    elim (Option-cases (free_location s.device.mapped_locations 0)) [
      | inl all_used ↦
          rw (all_used, map_ranges) (returns (IsKept-refl s.device.mapped_locations, refl))
      | inr (k, found) ↦
          rw (found, map_ranges)
            (mono (map_ranges-IsKept left (i + 1) ptr size_cells _) (λ _ s' (kept, rest). (
              IsKept-trans s.device.mapped_locations
                  (set s.device.mapped_locations k (location_at s.memory ptr i size_cells))
                  s'.device.mapped_locations
                  (set-IsKept s.device.mapped_locations k (location_at s.memory ptr i size_cells)
                    found)
                  kept,
              rest,
            )))
    ]
