-- ===== src/Page/Allocate.antt =====
-- `allocate_a_page` of src/page.c: a free frame at the first virtual page that can be mapped.
use fifth_kernel.Base.{
  ℕ, zero, suc, ◌+◌, ◌/◌, ℤ, pos, negsuc, Bool, false, Option, none, some, ◌==◌, if◌then◌else◌,
}
use fifth_kernel.Frame.{allocate_frame, first_free_frame, deallocate_frame, frame_to_phys_addr}
use fifth_kernel.Machine.{fault, Cmd, pure, ◌>>=◌, ◌>>◌, modify}
use fifth_kernel.Page.{map_page}
use fifth_kernel.Page.MapType
use fifth_kernel.Page.Err

-- `res == 0`
abbrev pub is_success : ℤ → Bool
is_success (pos n) = n == 0
is_success (negsuc n) = false

-- The loop over the virtual pages from `i` on, with `left` rounds to go: the page that was mapped.
unfoldable pub map_first : (left ppn i : ℕ) → Cmd (Option ℕ)
map_first zero ppn i = pure none
map_first (suc left) ppn i = do
  res ← map_page 0 ppn i MapType.page
  if is_success res then pure (some i) else map_first left ppn (i + 1)

-- The result and what goes out through the two pointers.
pub record Allocated : Type 0 where
  pub code : ℤ
  pub ppn : ℕ
  pub vpn : ℕ

-- The first virtual page, and the number of pages from there to the last, 0x100000.
abbrev pub first_vpn : ℕ
first_vpn = 0x80000

abbrev pub vpn_count : ℕ
vpn_count = 0x80001

unfoldable pub finish_allocation : (frame ppn : ℕ) → Option ℕ → Cmd Allocated
finish_allocation frame ppn (some vpn) = pure record { code = Err.success; ppn = ppn; vpn = vpn }
finish_allocation frame ppn none = do
  modify λ s. record s { frames = deallocate_frame s.frames frame }
  pure record { code = Err.unable_to_map; ppn = 0; vpn = 0 }

unfoldable pub allocate_a_page : Cmd Allocated
allocate_a_page s = elim (first_free_frame s.frames) [
  | none ↦ fault
  | some frame ↦
      let (frames, allocated) = allocate_frame s.frames frame in
      let ppn = frame_to_phys_addr s.device.ram_start allocated / 4096 in
      (do vpn ← map_first vpn_count ppn first_vpn; finish_allocation frame ppn vpn)
        (record s { frames = frames })
]
