-- ===== src/Page/Err.antt =====
-- The error codes of src/page.h, as the `int`s that they are; `success` is the 0 of a call that
-- worked.
use fifth_kernel.Base.{ℤ, pos, negsuc}

abbrev pub success : ℤ
success = pos 0

abbrev pub align : ℤ
align = negsuc 0

abbrev pub already_mapped : ℤ
already_mapped = negsuc 1

abbrev pub not_mapped : ℤ
not_mapped = negsuc 2

abbrev pub incorrect_map_type : ℤ
incorrect_map_type = negsuc 3

abbrev pub null_pt : ℤ
null_pt = negsuc 4

abbrev pub unable_to_map : ℤ
unable_to_map = negsuc 5
