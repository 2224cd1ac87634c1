-- ===== src/Machine/Returns.antt =====
-- A run that ends, with no fault, in a result with a postcondition.
use fifth_kernel.Base.{◌≡◌, refl}
use fifth_kernel.Machine.{Machine, Run, done, Cmd, and_then}

pub data Returns {A : Type 0} (P : A → Machine → Type 0) : Run A → Type 0 where
  returns : {a : A} {s : Machine} → P a s → Returns P (done a s)

module _ {A : Type 0} {P : A → Machine → Type 0} where
  pub bind :
      {B : Type 0} {Q : B → Machine → Type 0} {r : Run A} {k : A → Cmd B}
      → Returns P r
      → ((a : A) (s : Machine) → P a s → Returns Q (k a s))
      → Returns Q (and_then r k)
  bind (returns p) next = next _ _ p

  pub mono :
      {Q : A → Machine → Type 0} {r : Run A}
      → Returns P r
      → ((a : A) (s : Machine) → P a s → Q a s)
      → Returns Q r
  mono (returns p) weaken = returns (weaken _ _ p)

  -- What holds of the result that a run ends in.
  pub returned : {a : A} {s : Machine} {r : Run A} → Returns P r → r ≡ done a s → P a s
  returned {a} {s} held e = at_end (rw e at held)
    where
      at_end : Returns P (done a s) → P a s
      at_end (returns p) = p

  -- Such a run has a result.
  pub ended : {r : Run A} → Returns P r → (a : A) × (s : Machine) × (r ≡ done a s)
  ended (returns {a} {s} p) = (a, s, refl)

  pub both :
      {Q : A → Machine → Type 0} {r : Run A}
      → Returns P r
      → Returns Q r
      → Returns (λ a s. P a s × Q a s) r
  both (returns p) (returns q) = returns (p, q)
