-- ===== src/Machine/Prints.antt =====
-- Commands on the state by what they may change.
use fifth_kernel.Base.{ℕ, ◌≡◌, refl, ap, ◌∙◌, Bool, true, false, if◌then◌else◌, List, ◌∷◌, String}
use fifth_kernel.Memory.{Memory}
use fifth_kernel.Machine.{Machine, Run, done, Cmd, and_then, printf, Printed}
use fifth_kernel.Machine.Returns.{Returns, returns, bind, mono}

-- Nothing but the console changed.
abbrev pub OnlyPrints : Machine → Machine → Type 0
OnlyPrints s s' = (c : List Printed) × (s' ≡ record s { console = c })

pub OnlyPrints-refl : (s : Machine) → OnlyPrints s s
OnlyPrints-refl s = (s.console, refl)

pub OnlyPrints-trans : (s s' s'' : Machine) → OnlyPrints s s' → OnlyPrints s' s'' → OnlyPrints s s''
OnlyPrints-trans s s' s'' (c, p) (d, q) =
    (d, q ∙ ap {A = Machine} {B = Machine} (λ z. record z { console = d }) p)

pub OnlyPrints-memory : (s s' : Machine) → OnlyPrints s s' → s'.memory ≡ s.memory
OnlyPrints-memory s s' (c, p) = ap {A = Machine} {B = Memory} (λ z. z.memory) p

-- A command that returns, and prints only.
abbrev pub Prints : {A : Type 0} → Machine → Run A → Type 0
Prints s r = Returns (λ _ s'. OnlyPrints s s') r

pub Prints-then :
    {A B : Type 0} (s : Machine) {r : Run A} {k : A → Cmd B}
    → Prints s r
    → ((a : A) (s' : Machine) → OnlyPrints s s' → Prints s' (k a s'))
    → Prints s (and_then r k)
Prints-then s first next =
    bind first (λ a s' p. mono (next a s' p) (λ b s'' q. OnlyPrints-trans s s' s'' p q))

pub Prints-if :
    {A : Type 0} (s : Machine) (b : Bool) (m n : Cmd A)
    → Prints s (m s)
    → Prints s (n s)
    → Prints s ((if b then m else n) s)
Prints-if s true m n p q = p
Prints-if s false m n p q = q

pub pure-Prints : {A : Type 0} (a : A) (s : Machine) → Prints s (done a s)
pure-Prints a s = returns (OnlyPrints-refl s)

pub printf-Prints : (s : Machine) (f : String) (args : List ℕ) → Prints s (printf f args s)
printf-Prints s f args = returns (_, refl)

abbrev pub printed : String → List ℕ → Machine → Machine
printed format args s = record s { console = record { format = format; args = args } ∷ s.console }

-- A command that returns `nullptr`, and prints only.
abbrev pub Nulls : Machine → Run ℕ → Type 0
Nulls s r = Returns (λ a s'. (a ≡ 0) × OnlyPrints s s') r

pub Nulls-then :
    {A : Type 0} (s : Machine) {r : Run A} {k : A → Cmd ℕ}
    → Prints s r
    → ((a : A) (s' : Machine) → OnlyPrints s s' → Nulls s' (k a s'))
    → Nulls s (and_then r k)
Nulls-then s first next =
    bind first (λ a s' p. mono (next a s' p) (λ b s'' (e, q). (e, OnlyPrints-trans s s' s'' p q)))

pub Nulls-if :
    (s : Machine) (b : Bool) (m n : Cmd ℕ)
    → Nulls s (m s)
    → Nulls s (n s)
    → Nulls s ((if b then m else n) s)
Nulls-if s true m n p q = p
Nulls-if s false m n p q = q
