-- ===== src/Mem/Copy.antt =====
-- The loops of src/mem.c by the bytes that they leave, and its page arithmetic.
use fifth_kernel.Base.{
  ℕ, zero, suc, ◌+◌, ◌-◌, ◌%◌, ◌^◌, ◌≤◌, ◌<◌, ◌≡◌, ◌⊎◌, arith, Bool, ◌&&◌, leb, ltb, if◌then◌else◌,
  inl, inr,
}
use fifth_kernel.Memory.{Memory, IsBytes, write}
use fifth_kernel.Memory.Words.{write-at, write-IsBytes}
use fifth_kernel.Mem.{memset_loop, memset, memcpy_loop, memcpy, page_of, addr_of}

-- The address lies in the `n` bytes from `a` on.
abbrev pub within : (a n x : ℕ) → Bool
within a n x = leb a x && ltb x (a + n)

memset_loop-at :
    (left : ℕ) (m : Memory) (dest c x : ℕ)
    → memset_loop left m dest c x ≡ (if within dest left x then c % 256 else m x)
unfolding memset_loop
memset_loop-at zero m dest c x = ground arith
memset_loop-at (suc left) m dest c x =
    ground (arith, memset_loop-at left (write m dest c) (dest + 1) c x, write-at m dest c x)

-- `memset` stores the low byte of `c` into each of the `count` bytes from `dest` on, and leaves
-- every other byte as it was.
pub memset_lem :
    (m : Memory) (dest c count x : ℕ)
    → memset m dest c count x ≡ (if within dest count x then c % 256 else m x)
unfolding memset
memset_lem m dest c count x = memset_loop-at count m dest c x

pub memset-IsBytes : (m : Memory) (dest c count : ℕ) → IsBytes m → IsBytes (memset m dest c count)
memset-IsBytes m dest c count bytes x = ground (arith, memset_lem m dest c count x, bytes x)

memcpy_loop-at :
    (left i : ℕ) (m : Memory) (dest src x : ℕ)
    → IsBytes m
    → (dest ≤ src) ⊎ (src + i + left ≤ dest)
    → memcpy_loop left i m dest src x
      ≡ (if within (dest + i) left x then m (src + (x - dest)) else m x)
unfolding memcpy_loop
memcpy_loop-at zero i m dest src x bytes apart = ground arith
memcpy_loop-at (suc left) i m dest src x bytes apart = ground (
  arith,
  apart,
  memcpy_loop-at left (i + 1) (write m (dest + i) (m (src + i))) dest src x
      (write-IsBytes m (dest + i) (m (src + i)) bytes) (step apart),
  write-at m (dest + i) (m (src + i)) x,
  write-at m (dest + i) (m (src + i)) (src + (x - dest)),
  bytes (src + i),
)
  where
    step : (dest ≤ src) ⊎ (src + i + suc left ≤ dest) → (dest ≤ src) ⊎ (src + (i + 1) + left ≤ dest)
    step (inl h) = inl h
    step (inr h) = inr (omega arith)

-- Where the ranges do not overlap, or the destination starts no later than the source, `memcpy`
-- puts the bytes that stood in the source range into the destination range, in order, and leaves
-- every byte outside the destination range as it was.
pub memcpy_lem :
    (m : Memory) (dest src count x : ℕ)
    → IsBytes m
    → (dest ≤ src) ⊎ (src + count ≤ dest)
    → memcpy m dest src count x ≡ (if within dest count x then m (src + (x - dest)) else m x)
unfolding memcpy
memcpy_lem m dest src count x bytes apart =
    ground (arith, memcpy_loop-at count 0 m dest src x bytes (start apart))
  where
    start : (dest ≤ src) ⊎ (src + count ≤ dest) → (dest ≤ src) ⊎ (src + 0 + count ≤ dest)
    start (inl h) = inl h
    start (inr h) = inr (omega arith)

-- `page_of` undoes `addr_of` on every page number whose address fits 64 bits, and `addr_of` of an
-- address's page is the start of the page that holds the address.
pub page_of-addr_of :
    (page addr : ℕ)
    → page < 2 ^ 52
    → addr < 2 ^ 64
    → (page_of (addr_of page) ≡ page)
      × (addr_of (page_of addr) ≤ addr)
      × (addr < addr_of (page_of addr) + 4096)
unfolding page_of addr_of
page_of-addr_of page addr p q = omega arith
