-- ===== src/CString.antt =====
-- src/string.c, and `strlen` of src/fdt.c: walks over zero-terminated bytes. `none` means that the
-- fuel ran out before the walk ended.
pub mod Order
use fifth_kernel.Base.{
  ℕ, zero, suc, ◌+◌, ℤ, pos, sub_ℕ, Option, none, some, Bool, not, ◌&&◌, ◌==◌, if◌then◌else◌,
}
use fifth_kernel.Memory.{Memory}

-- `*a && (*a == *b)`; equality of two `char`s is that of their bytes.
abbrev pub same_char : Memory → ℕ → ℕ → Bool
same_char m a b = not (m a == 0) && (m a == m b)

unfoldable pub strcmp : (fuel : ℕ) → Memory → (a b : ℕ) → Option ℤ
strcmp zero m a b = none
strcmp (suc fuel) m a b =
    let rest = strcmp fuel m (a + 1) (b + 1) in
    if same_char m a b then rest else some (sub_ℕ (m a) (m b))

-- The loop's own counter bounds it.
unfoldable pub strncmp : Memory → (a b count : ℕ) → ℤ
strncmp m a b zero = pos 0
strncmp m a b (suc count) =
    let rest = strncmp m (a + 1) (b + 1) count in
    if same_char m a b then rest else sub_ℕ (m a) (m b)

-- The loop `for (i = 0; s[i] != 0; i++)` at index `i`.
strlen_loop : (fuel : ℕ) → Memory → (s i : ℕ) → Option ℕ
strlen_loop zero m s i = none
strlen_loop (suc fuel) m s i =
    let rest = strlen_loop fuel m s (i + 1) in if m (s + i) == 0 then some i else rest

unfoldable pub strlen : (fuel : ℕ) → Memory → ℕ → Option ℕ
unfolding strlen_loop
strlen fuel m s = strlen_loop fuel m s 0
