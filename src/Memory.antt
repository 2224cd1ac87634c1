-- ===== src/Memory.antt =====
-- Memory as the code sees it: a byte at each address, and little-endian words of several bytes
-- (`uint16_t`, `uint32_t`, `size_t`) built from them.
pub mod Words
use fifth_kernel.Base.{ℕ, zero, suc, ◌+◌, ◌*◌, ◌/◌, ◌%◌, ◌<◌, ◌==◌, if◌then◌else◌}

abbrev pub Memory : Type 0
Memory = ℕ → ℕ

abbrev pub IsBytes : Memory → Type 0
IsBytes m = (a : ℕ) → m a < 256

unfoldable pub write : Memory → ℕ → ℕ → Memory
write m a v = λ x. if x == a then v % 256 else m x

-- The word of `n` bytes at an address, least significant byte first.
unfoldable pub load : ℕ → Memory → ℕ → ℕ
load zero m a = 0
load (suc n) m a = m a + 256 * load n m (a + 1)

unfoldable pub store : ℕ → Memory → ℕ → ℕ → Memory
unfolding write
store zero m a v = m
store (suc n) m a v = store n (write m a v) (a + 1) (v / 256)
