-- ===== src/Base/Bits.antt =====
-- `&` and `|` at variables: both work on a high part and a low part of a number apart, so a mask
-- becomes a quotient or a remainder.
use Prim.Native.Nat.{
  ℕ, zero, suc, ◌+◌, ◌-◌, ◌*◌, ◌/◌, ◌%◌, ◌^◌, ◌≤◌, ◌<◌, min, max, bit_and, bit_or, digits, bitwise,
  bit_and-bitwise, bit_or-bitwise,
}
use mathlib.Core.Path.{◌≡◌, refl, ap}
use native.Mathlib.Nat.{pow-suc, one-le-pow}
use native.Mathlib.Omega.{arith}

-- Fuel beyond the first operand changes nothing.
module _ (base : ℕ → ℕ) (op : ℕ → ℕ → ℕ) where
  digits_enough : (n m a b : ℕ) → a ≤ n → a ≤ m → digits base op n a b ≡ digits base op m a b
  digits_enough zero zero zero b p q = refl
  digits_enough zero (suc m) zero b p q = refl
  digits_enough (suc n) zero zero b p q = refl
  digits_enough (suc n) (suc m) zero b p q = refl
  digits_enough (suc n) (suc m) (suc a) b p q =
      ap (λ t. t * 2 + op (suc a % 2) (b % 2))
        (digits_enough n m (suc a / 2) (b / 2) (omega arith) (omega arith))
  digits_enough zero m (suc a) b p q = absurd (omega arith)
  digits_enough (suc n) zero (suc a) b p q = absurd (omega arith)

  bitwise_low :
      (a b : ℕ)
      → bitwise base op (suc a) b ≡ bitwise base op (suc a / 2) (b / 2) * 2 + op (suc a % 2) (b % 2)
  bitwise_low a b =
      ap (λ t. t * 2 + op (suc a % 2) (b % 2))
        (digits_enough a (suc a / 2) (suc a / 2) (b / 2) (omega arith) (omega arith))

pub bit_and_low : (a b : ℕ) → bit_and a b ≡ bit_and (a / 2) (b / 2) * 2 + min (a % 2) (b % 2)
bit_and_low zero b = simp bit_and-bitwise (omega arith)
bit_and_low (suc a) b = simp bit_and-bitwise (bitwise_low (λ y. 0) min a b)

pub bit_or_low : (a b : ℕ) → bit_or a b ≡ bit_or (a / 2) (b / 2) * 2 + max (a % 2) (b % 2)
bit_or_low zero b = simp bit_or-bitwise (omega arith)
bit_or_low (suc a) b = simp bit_or-bitwise (bitwise_low (λ y. y) max a b)

double_pow : (q k : ℕ) → q * 2 ^ suc k ≡ 2 * (q * 2 ^ k)
double_pow q k = omega (arith, ap (λ (t : ℕ). q * t) (pow-suc 2 k))

pub bit_and_split :
    (k h r m s : ℕ)
    → r < 2 ^ k
    → s < 2 ^ k
    → bit_and (h * 2 ^ k + r) (m * 2 ^ k + s) ≡ bit_and h m * 2 ^ k + bit_and r s
bit_and_split zero h r m s p q =
    let r0 : r ≡ 0 = omega arith in
    let s0 : s ≡ 0 = omega arith in
    let h0 : h * 2 ^ 0 + 0 ≡ h = omega arith in
    let m0 : m * 2 ^ 0 + 0 ≡ m = omega arith in rw (r0, s0, h0, m0) (omega arith)
bit_and_split (suc k) h r m s p q =
    let hr : (h * 2 ^ suc k + r) / 2 ≡ h * 2 ^ k + r / 2 = omega (arith, double_pow h k) in
    let ms : (m * 2 ^ suc k + s) / 2 ≡ m * 2 ^ k + s / 2 = omega (arith, double_pow m k) in
    ground (
      arith,
      hr,
      ms,
      bit_and_low (h * 2 ^ suc k + r) (m * 2 ^ suc k + s),
      bit_and_low r s,
      double_pow h k,
      double_pow m k,
      double_pow (bit_and h m) k,
      pow-suc 2 k,
      bit_and_split k h (r / 2) m (s / 2) (omega (arith, pow-suc 2 k)) (omega (arith, pow-suc 2 k)),
    )

pub bit_or_split :
    (k h r m s : ℕ)
    → r < 2 ^ k
    → s < 2 ^ k
    → bit_or (h * 2 ^ k + r) (m * 2 ^ k + s) ≡ bit_or h m * 2 ^ k + bit_or r s
bit_or_split zero h r m s p q =
    let r0 : r ≡ 0 = omega arith in
    let s0 : s ≡ 0 = omega arith in
    let h0 : h * 2 ^ 0 + 0 ≡ h = omega arith in
    let m0 : m * 2 ^ 0 + 0 ≡ m = omega arith in rw (r0, s0, h0, m0) (omega arith)
bit_or_split (suc k) h r m s p q =
    let hr : (h * 2 ^ suc k + r) / 2 ≡ h * 2 ^ k + r / 2 = omega (arith, double_pow h k) in
    let ms : (m * 2 ^ suc k + s) / 2 ≡ m * 2 ^ k + s / 2 = omega (arith, double_pow m k) in
    ground (
      arith,
      hr,
      ms,
      bit_or_low (h * 2 ^ suc k + r) (m * 2 ^ suc k + s),
      bit_or_low r s,
      double_pow h k,
      double_pow m k,
      double_pow (bit_or h m) k,
      pow-suc 2 k,
      bit_or_split k h (r / 2) m (s / 2) (omega (arith, pow-suc 2 k)) (omega (arith, pow-suc 2 k)),
    )

pub zero-bit_and : (b : ℕ) → bit_and 0 b ≡ 0
zero-bit_and b = bit_and-bitwise 0 b

pub zero-bit_or : (b : ℕ) → bit_or 0 b ≡ b
zero-bit_or b = bit_or-bitwise 0 b

bit_and-zero_fuel : (n a : ℕ) → a ≤ n → bit_and a 0 ≡ 0
bit_and-zero_fuel zero a h = let e : a ≡ 0 = omega arith in rw (e, zero-bit_and)
bit_and-zero_fuel (suc n) a h = elim-zero a h (λ p. bit_and-zero_fuel n (a / 2) p)
  where
    elim-zero : (a : ℕ) → a ≤ suc n → (a / 2 ≤ n → bit_and (a / 2) 0 ≡ 0) → bit_and a 0 ≡ 0
    elim-zero a h ih = omega (arith, bit_and_low a 0, ih (omega arith))

pub bit_and-zero : (a : ℕ) → bit_and a 0 ≡ 0
bit_and-zero a = bit_and-zero_fuel a a (omega arith)

bit_or-zero_fuel : (n a : ℕ) → a ≤ n → bit_or a 0 ≡ a
bit_or-zero_fuel zero a h = let e : a ≡ 0 = omega arith in rw (e, zero-bit_or)
bit_or-zero_fuel (suc n) a h =
    omega (arith, bit_or_low a 0, bit_or-zero_fuel n (a / 2) (omega arith))

pub bit_or-zero : (a : ℕ) → bit_or a 0 ≡ a
bit_or-zero a = bit_or-zero_fuel a a (omega arith)

bit_and_ones_below : (k r : ℕ) → r < 2 ^ k → bit_and r (2 ^ k - 1) ≡ r
bit_and_ones_below zero r p = rw bit_and-zero (omega arith)
bit_and_ones_below (suc k) r p =
    let half : (2 ^ suc k - 1) / 2 ≡ 2 ^ k - 1 = omega (arith, pow-suc 2 k, one-le-pow k 2) in
    ground (
      arith,
      half,
      bit_and_low r (2 ^ suc k - 1),
      pow-suc 2 k,
      one-le-pow k 2,
      bit_and_ones_below k (r / 2),
    )

-- A mask of `k` ones is the remainder by `2 ^ k`.
pub bit_and_ones : (k a : ℕ) → bit_and a (2 ^ k - 1) ≡ a % 2 ^ k
bit_and_ones k a = ground (
  arith,
  one-le-pow k 2,
  bit_and_split k (a / 2 ^ k) (a % 2 ^ k) 0 (2 ^ k - 1),
  bit_and-zero (a / 2 ^ k),
  bit_and_ones_below k (a % 2 ^ k),
)

-- `|` of numbers whose bits do not meet is their sum.
pub bit_or_fields : (k h r : ℕ) → r < 2 ^ k → bit_or (h * 2 ^ k) r ≡ h * 2 ^ k + r
bit_or_fields k h r p = ground (arith, bit_or_split k h 0 0 r, bit_or-zero h, zero-bit_or r)

pub bit_or_above : (k h r : ℕ) → r < 2 ^ k → bit_or r (h * 2 ^ k) ≡ r + h * 2 ^ k
bit_or_above k h r p = ground (arith, bit_or_split k 0 r h 0, zero-bit_or h, bit_or-zero r)
