-- ===== src/Tests/Bytes.antt =====
-- src/mem.c and src/string.c on a few bytes.
use fifth_kernel.Base.{
  ℕ, ◌+◌, ◌<◌, ◌≤◌, ◌≡◌, refl, arith, some, List, [], ◌∷◌, inr, ◌==◌, if◌then◌else◌,
}
use fifth_kernel.Memory.{Memory, IsBytes}
use fifth_kernel.Mem.{memcpy, page_of, addr_of}
use fifth_kernel.Mem.Copy.{memcpy_lem, page_of-addr_of}
use fifth_kernel.CString.{strcmp, strncmp}
use fifth_kernel.CString.Order.{IsString, order, strcmp-order, strncmp-order}

-- "reg" stands at 100 and "re" at 200.
abbrev bytes : Memory
bytes a =
    if a == 100
    then 0x72
    else if a == 101
    then 0x65
    else if a == 102
    then 0x67
    else if a == 200
    then 0x72
    else if a == 201
    then 0x65
    else 0

bytes-IsBytes : IsBytes bytes
bytes-IsBytes a = ground arith

abbrev reg_chars : List ℕ
reg_chars = 0x72 ∷ 0x65 ∷ 0x67 ∷ []

abbrev re_chars : List ℕ
re_chars = 0x72 ∷ 0x65 ∷ []

reg : IsString bytes 100 reg_chars
reg = (
  refl,
  (λ e. omega (arith, e)),
  (refl, (λ e. omega (arith, e)), (refl, (λ e. omega (arith, e)), refl)),
)

re : IsString bytes 200 re_chars
re = (refl, (λ e. omega (arith, e)), (refl, (λ e. omega (arith, e)), refl))

memcpy_lem_example : memcpy bytes 300 100 3 302 ≡ 0x67
memcpy_lem_example = memcpy_lem bytes 300 100 3 302 bytes-IsBytes (inr (omega arith))

page_of-addr_of_example :
    (page_of (addr_of 0x80001) ≡ 0x80001)
    × (addr_of (page_of 0x80001234) ≤ 0x80001234)
    × (0x80001234 < addr_of (page_of 0x80001234) + 4096)
page_of-addr_of_example = page_of-addr_of 0x80001 0x80001234 (omega arith) (omega arith)

strcmp-order_example : strcmp 4 bytes 100 200 ≡ some (order reg_chars re_chars)
strcmp-order_example = strcmp-order 4 bytes 100 200 reg_chars re_chars reg re (omega arith)

strncmp-order_example : strncmp bytes 100 200 2 ≡ order re_chars re_chars
strncmp-order_example = strncmp-order bytes 100 200 2 reg_chars re_chars reg re
