-- ===== src/Mem.antt =====
-- src/mem.c: page arithmetic, `memset` and `memcpy`. Both loops return their first argument
-- unchanged, so only the memory is a result here.
pub mod Copy
use fifth_kernel.Base.{ℕ, zero, suc, ◌+◌, ◌*◌, ◌/◌, ◌%◌, ◌^◌}
use fifth_kernel.Memory.{Memory, write}

unfoldable pub page_of : ℕ → ℕ
page_of addr = addr / 2 ^ 12

unfoldable pub addr_of : ℕ → ℕ
addr_of page = page * 2 ^ 12 % 2 ^ 64

-- The loop with `left` rounds to go; `dest` is the pointer that moves.
memset_loop : (left : ℕ) → Memory → (dest c : ℕ) → Memory
memset_loop zero m dest c = m
memset_loop (suc left) m dest c = memset_loop left (write m dest c) (dest + 1) c

unfoldable pub memset : Memory → (dest c count : ℕ) → Memory
unfolding memset_loop write
memset m dest c count = memset_loop count m dest c

-- The loop at index `i` with `left` rounds to go.
memcpy_loop : (left i : ℕ) → Memory → (dest src : ℕ) → Memory
memcpy_loop zero i m dest src = m
memcpy_loop (suc left) i m dest src =
    memcpy_loop left (i + 1) (write m (dest + i) (m (src + i))) dest src

unfoldable pub memcpy : Memory → (dest src count : ℕ) → Memory
unfolding memcpy_loop write
memcpy m dest src count = memcpy_loop count 0 m dest src
