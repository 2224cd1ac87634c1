-- ===== src/Fdt/Bytes.antt =====
-- The byte order and the alignment of the device tree's words, in src/fdt.c.
use fifth_kernel.Base.{ℕ, ◌+◌, ◌*◌, ◌/◌, ◌%◌, ◌^◌, ◌≤◌, ◌<◌, ◌≡◌, ap, arith}
use fifth_kernel.Memory.{Memory, IsBytes, load}
use fifth_kernel.Memory.Words.{load-lt}
use fifth_kernel.Fdt.{swapb, swapb64, align32}

-- `swapb` of a word that was loaded is the number that its four bytes spell with the first of them
-- the most significant.
pub swapb-load :
    (m : Memory) (a : ℕ)
    → IsBytes m
    → swapb (load 4 m a) ≡ ((m a * 256 + m (a + 1)) * 256 + m (a + 2)) * 256 + m (a + 3)
unfolding swapb load
swapb-load m a bytes =
    omega (arith, bytes a, bytes (a + 1), bytes (a + 1 + 1), bytes (a + 1 + 1 + 1), at_2, at_3)
  where
    at_2 : m (a + 1 + 1) ≡ m (a + 2)
    at_2 = ap m (omega arith)

    at_3 : m (a + 1 + 1 + 1) ≡ m (a + 3)
    at_3 = ap m (omega arith)

-- `swapb` undoes itself on 32-bit words.
pub swapb-swapb : (n : ℕ) → n < 2 ^ 32 → swapb (swapb n) ≡ n
unfolding swapb
swapb-swapb n h = omega (arith, h)

-- `align32` rounds an address that is not among the last ones up to a multiple of four.
pub align32_lem :
    (a : ℕ) → a + 4 ≤ 2 ^ 64 → (align32 a % 4 ≡ 0) × (a ≤ align32 a) × (align32 a < a + 4)
unfolding align32
align32_lem a h = ground arith

-- The number that the eight bytes from `a` on spell with the first of them the most significant.
abbrev pub big_endian : Memory → (a : ℕ) → ℕ
big_endian m a =
    ((((((m a * 256 + m (a + 1)) * 256 + m (a + 2)) * 256 + m (a + 3)) * 256 + m (a + 4)) * 256
            + m (a + 5))
          * 256
        + m (a + 6))
      * 256
    + m (a + 7)

pub swapb64-load : (m : Memory) (a : ℕ) → IsBytes m → swapb64 (load 8 m a) ≡ big_endian m a
swapb64-load m a bytes =
    unfold swapb64 in
    rw (low, high)
      (omega (arith, swapb-load m a bytes, swapb-load m (a + 4) bytes, at_1, at_2, at_3))
  where
    parts : load 8 m a ≡ load 4 m a + 2 ^ 32 * load 4 m (a + 4)
    parts = unfold load in (let e : a + 4 ≡ a + 1 + 1 + 1 + 1 = omega arith in rw e (omega arith))

    low : load 8 m a % 2 ^ 32 ≡ load 4 m a
    low = omega (arith, parts, load-lt 4 m a bytes)

    high : load 8 m a / 2 ^ 32 ≡ load 4 m (a + 4)
    high = omega (arith, parts, load-lt 4 m a bytes)

    at_1 : m (a + 4 + 1) ≡ m (a + 5)
    at_1 = ap m (omega arith)

    at_2 : m (a + 4 + 2) ≡ m (a + 6)
    at_2 = ap m (omega arith)

    at_3 : m (a + 4 + 3) ≡ m (a + 7)
    at_3 = ap m (omega arith)
