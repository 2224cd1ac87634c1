-- ===== src/CString/Order.antt =====
-- The functions of src/string.c, and `strlen`, on strings that stand in memory.
use fifth_kernel.Base.{
  ℕ, zero, suc, ◌+◌, ◌<◌, ◌≡◌, ◌≢◌, refl, ap, ◌↔◌, arith, ℤ, pos, sub_ℕ, some, List, [], ◌∷◌,
  length, take, ◌==◌, if◌then◌else◌,
}
use fifth_kernel.Memory.{Memory}
use fifth_kernel.CString.{strcmp, strncmp, strlen_loop, strlen}

-- The characters of a string, and the zero byte behind them, stand at an address.
abbrev pub IsString : Memory → ℕ → List ℕ → Type 0
IsString m a [] = m a ≡ 0
IsString m a (x ∷ xs) = (m a ≡ x) × (x ≢ 0) × IsString m (a + 1) xs

-- The lexical comparison that both functions promise: the difference at the first character that
-- differs, the end of a string counting as zero.
unfoldable pub order : List ℕ → List ℕ → ℤ
order [] [] = pos 0
order [] (y ∷ ys) = sub_ℕ 0 y
order (x ∷ xs) [] = sub_ℕ x 0
order (x ∷ xs) (y ∷ ys) = if x == y then order xs ys else sub_ℕ x y

-- On two strings in memory, with more fuel than the first is long, `strcmp` returns their lexical
-- comparison.
pub strcmp-order :
    (fuel : ℕ) (m : Memory) (a b : ℕ) (xs ys : List ℕ)
    → IsString m a xs
    → IsString m b ys
    → length xs < fuel
    → strcmp fuel m a b ≡ some (order xs ys)
unfolding strcmp order
strcmp-order zero m a b xs ys p q h = absurd (omega arith)
strcmp-order (suc fuel) m a b [] [] p q h = ground arith
strcmp-order (suc fuel) m a b [] (y ∷ ys) p q h = ground arith
strcmp-order (suc fuel) m a b (x ∷ xs) [] p q h = ground arith
strcmp-order (suc fuel) m a b (x ∷ xs) (y ∷ ys) p q h =
    ground (arith, strcmp-order fuel m (a + 1) (b + 1) xs ys p.2 q.2)

-- On two strings in memory `strncmp` returns the lexical comparison of their first `count`
-- characters.
pub strncmp-order :
    (m : Memory) (a b count : ℕ) (xs ys : List ℕ)
    → IsString m a xs
    → IsString m b ys
    → strncmp m a b count ≡ order (take count xs) (take count ys)
unfolding strncmp order
strncmp-order m a b zero xs ys p q = refl
strncmp-order m a b (suc count) [] [] p q = ground arith
strncmp-order m a b (suc count) [] (y ∷ ys) p q = ground arith
strncmp-order m a b (suc count) (x ∷ xs) [] p q = ground arith
strncmp-order m a b (suc count) (x ∷ xs) (y ∷ ys) p q =
    ground (arith, strncmp-order m (a + 1) (b + 1) count xs ys p.2 q.2)

strlen_loop_lem :
    (fuel : ℕ) (m : Memory) (s i : ℕ) (xs : List ℕ)
    → IsString m (s + i) xs
    → length xs < fuel
    → strlen_loop fuel m s i ≡ some (i + length xs)
unfolding strlen_loop
strlen_loop_lem zero m s i xs p h = absurd (omega arith)
strlen_loop_lem (suc fuel) m s i [] p h = ground arith
strlen_loop_lem (suc fuel) m s i (x ∷ xs) p h =
    let shift : s + i + 1 ≡ s + (i + 1) = omega arith in
    ground (arith, strlen_loop_lem fuel m s (i + 1) xs (rw (← shift) p.2))

-- With more fuel than the string is long, `strlen` returns the number of its characters.
pub strlen-length :
    (fuel : ℕ) (m : Memory) (s : ℕ) (xs : List ℕ)
    → IsString m s xs
    → length xs < fuel
    → strlen fuel m s ≡ some (length xs)
unfolding strlen
strlen-length fuel m s xs p h =
    let start : s + 0 ≡ s = omega arith in
    ground (arith, strlen_loop_lem fuel m s 0 xs (rw start p) h)

abbrev NonZero : List ℕ → Type 0
NonZero [] = Unit {0}
NonZero (x ∷ xs) = (x ≢ 0) × NonZero xs

NonZero-of_IsString : (m : Memory) (a : ℕ) (xs : List ℕ) → IsString m a xs → NonZero xs
NonZero-of_IsString m a [] p = tt
NonZero-of_IsString m a (x ∷ xs) p = (p.1, NonZero-of_IsString m (a + 1) xs p.2)

NonZero-take : (n : ℕ) (xs : List ℕ) → NonZero xs → NonZero (take n xs)
NonZero-take zero xs p = tt
NonZero-take (suc n) [] p = tt
NonZero-take (suc n) (x ∷ xs) p = (p.0, NonZero-take n xs p.1)

order_self : (xs : List ℕ) → order xs xs ≡ pos 0
unfolding order
order_self [] = refl
order_self (x ∷ xs) = ground (arith, order_self xs)

eq_of_order : (xs ys : List ℕ) → NonZero xs → NonZero ys → order xs ys ≡ pos 0 → xs ≡ ys
unfolding order
eq_of_order [] [] p q h = refl
eq_of_order [] (y ∷ ys) p q h = ground arith
eq_of_order (x ∷ xs) [] p q h = ground arith
eq_of_order (x ∷ xs) (y ∷ ys) p q h = ground (arith, eq_of_order xs ys p.1 q.1)

-- With more fuel than the first string is long, `strcmp` returns zero exactly when the two strings
-- in memory are the same, character for character.
pub strcmp-zero_iff :
    (fuel : ℕ) (m : Memory) (a b : ℕ) (xs ys : List ℕ)
    → IsString m a xs
    → IsString m b ys
    → length xs < fuel
    → (strcmp fuel m a b ≡ some (pos 0)) ↔ (xs ≡ ys)
strcmp-zero_iff fuel m a b xs ys p q h = rw (strcmp-order fuel m a b xs ys p q h) (
  λ e. eq_of_order xs ys (NonZero-of_IsString m a xs p) (NonZero-of_IsString m b ys q) (cc),
  λ e. ap some (rw e (order_self ys)),
)

-- `strncmp` returns zero exactly when the first `count` characters of the two strings in memory are
-- the same.
pub strncmp-zero_iff :
    (m : Memory) (a b count : ℕ) (xs ys : List ℕ)
    → IsString m a xs
    → IsString m b ys
    → (strncmp m a b count ≡ pos 0) ↔ (take count xs ≡ take count ys)
strncmp-zero_iff m a b count xs ys p q = rw (strncmp-order m a b count xs ys p q) (
  eq_of_order (take count xs) (take count ys) (NonZero-take count xs (NonZero-of_IsString m a xs p))
      (NonZero-take count ys (NonZero-of_IsString m b ys q)),
  λ e. rw e (order_self (take count ys)),
)
