-- ===== src/Frame.antt =====
-- src/frame.c: the bitmap of physical frames. `Frames` is the array `frames`, a byte at each index;
-- the code itself checks no index but those of `allocate_frame` and `deallocate_frame`.
pub mod Bitmap
pub mod FindByte
pub mod Search
pub mod Range
pub mod Free
pub mod Lowest
use fifth_kernel.Base.{
  ℕ, zero, suc, ◌+◌, ◌-◌, ◌*◌, ◌/◌, ◌%◌, ◌^◌, bit_and, bit_or, Option, none, some, Bool, leb, ◌==◌,
  if◌then◌else◌,
}
use fifth_kernel.Mem.{page_of}

abbrev pub Frames : Type 0
Frames = ℕ → ℕ

-- `sizeof(frames)`
abbrev pub frame_bytes : ℕ
frame_bytes = 32768

-- `sizeof(frames) * 8`
abbrev pub frame_count : ℕ
frame_count = 262144

-- `(size_t)-1`, the error result of `allocate_frame`
abbrev pub no_frame : ℕ
no_frame = 2 ^ 64 - 1

abbrev pub set_byte : Frames → ℕ → ℕ → Frames
set_byte fs i v = λ x. if x == i then v % 256 else fs x

unfoldable pub frame_to_phys_addr : (ram_start frame : ℕ) → ℕ
frame_to_phys_addr ram_start frame = (frame * 4096 + ram_start) % 2 ^ 64

unfoldable pub pages : ℕ → ℕ
pages bytes = (bytes + 4095) % 2 ^ 64 / 4096

unfoldable pub allocate_frame : Frames → ℕ → Frames × ℕ
allocate_frame fs frame =
    if leb frame_count frame
    then (fs, no_frame)
    else let byte = frame / 8 in
      let bit = frame % 8 in (set_byte fs byte (bit_or (fs byte) (2 ^ bit)), frame)

-- `~(uint8_t)(1 << bit)` is an `int`, whose complement sets its upper bits too.
unfoldable pub deallocate_frame : Frames → ℕ → Frames
deallocate_frame fs frame =
    if leb frame_bytes frame
    then fs
    else let byte = frame / 8 in
      let bit = frame % 8 in set_byte fs byte (bit_and (fs byte) (2 ^ 32 - 1 - 2 ^ bit))

-- `((frames[i] >> j) & 1) == 1`
unfoldable pub bit_set : (byte j : ℕ) → Bool
bit_set byte j = bit_and (byte / 2 ^ j) 1 == 1

-- `while (frames[i] == 0xFF) i++` with `left` bytes of the array from `i` on. The loop has no
-- bound, and `none` is its read past the end of the array.
unfoldable pub find_byte : (left : ℕ) → Frames → (i : ℕ) → Option ℕ
find_byte zero fs i = none
find_byte (suc left) fs i =
    let rest = find_byte left fs (i + 1) in if fs i == 0xff then rest else some i

-- `while (((frames[i] >> j) & 1) == 1) j++` with `left` rounds to go.
unfoldable pub find_bit : (left byte j : ℕ) → Option ℕ
find_bit zero byte j = none
find_bit (suc left) byte j =
    let rest = find_bit left byte (j + 1) in if bit_set byte j then rest else some j

-- A byte has eight bits, so the ninth round of the inner loop ends it.
unfoldable pub find_bit_in : Frames → ℕ → Option ℕ
find_bit_in fs i = elim (find_bit 9 (fs i) 0) [ none ↦ none | some j ↦ some (i * 8 + j) ]

unfoldable pub first_free_frame : Frames → Option ℕ
first_free_frame fs = elim (find_byte frame_bytes fs 0) [ none ↦ none | some i ↦ find_bit_in fs i ]

unfoldable pub allocate_first_frame : Frames → Option (Frames × ℕ)
allocate_first_frame fs = elim (first_free_frame fs) [
  | none ↦ none
  | some frame ↦ some (allocate_frame fs frame)
]

-- The loop of `allocate_n_frames` at index `i` with `left` rounds to go.
unfoldable pub allocate_loop : (left : ℕ) → Frames → (i : ℕ) → Frames
allocate_loop zero fs i = fs
allocate_loop (suc left) fs i = allocate_loop left (allocate_frame fs i).0 (i + 1)

-- `i < start + count` compares with the wrapped sum, so a sum that wraps runs no round.
unfoldable pub allocate_n_frames : Frames → (start count : ℕ) → Frames
allocate_n_frames fs start count = allocate_loop ((start + count) % 2 ^ 64 - start) fs start

-- The loop that clears the array at index `i` with `left` rounds to go.
unfoldable pub clear_loop : (left : ℕ) → Frames → (i : ℕ) → Frames
clear_loop zero fs i = fs
clear_loop (suc left) fs i = clear_loop left (set_byte fs i 0) (i + 1)

abbrev pub sub_size : ℕ → ℕ → ℕ
sub_size a b = (a + 2 ^ 64 - b) % 2 ^ 64

-- The kernel's own frames and those of the device tree.
unfoldable pub init_frames :
    Frames → (kernel_start_addr kernel_end_addr ram_start dtb dtb_size : ℕ) → Frames
init_frames fs kernel_start_addr kernel_end_addr ram_start dtb dtb_size =
    let cleared = clear_loop frame_bytes fs 0 in
    let kernel =
      allocate_n_frames cleared (page_of (sub_size kernel_start_addr ram_start))
        (pages (sub_size kernel_end_addr kernel_start_addr)) in
    allocate_n_frames kernel (page_of (sub_size dtb ram_start)) (pages dtb_size)
