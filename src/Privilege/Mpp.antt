-- ===== src/Privilege/Mpp.antt =====
-- The field MPP of `mstatus` in src/csr.c and src/priv.c.
use fifth_kernel.Base.{
  ℕ, ◌+◌, ◌-◌, ◌*◌, ◌/◌, ◌%◌, ◌^◌, ◌<◌, ◌≡◌, refl, ap, ap₂, ◌∙◌, arith, bit_and, bit_or,
}
use fifth_kernel.Base.Bits.{bit_and_split, bit_or_split, bit_and_ones, bit_or-zero, zero-bit_or}
use fifth_kernel.Machine.{Machine, u64}
use fifth_kernel.Machine.Returns.{Returns, returns}
use fifth_kernel.Privilege.{mstatus_set_mpp, set_priv_m}

set_mpp :
    (x level : ℕ)
    → x < 2 ^ 64
    → bit_or (bit_and x (2 ^ 64 - 1 - 3 * 2 ^ 11)) (u64 (bit_and level 3 * 2 ^ 11))
      ≡ x % 2 ^ 11 + level % 4 * 2 ^ 11 + x / 2 ^ 13 * 2 ^ 13
set_mpp x level h =
    let parts : x ≡ x / 2 ^ 13 * 2 ^ 13 + x % 2 ^ 13 = omega arith in
    let cleared : bit_and x (2 ^ 64 - 1 - 3 * 2 ^ 11) ≡ x / 2 ^ 13 * 2 ^ 13 + x % 2 ^ 11 =
      ap (λ y. bit_and y (2 ^ 64 - 1 - 3 * 2 ^ 11)) parts
      ∙ bit_and_split 13 (x / 2 ^ 13) (x % 2 ^ 13) (2 ^ 51 - 1) (2 ^ 11 - 1) (omega arith)
          (omega arith)
      ∙ rw (bit_and_ones 51 (x / 2 ^ 13), bit_and_ones 11 (x % 2 ^ 13)) (omega arith) in
    let kept : u64 (bit_and level 3 * 2 ^ 11) ≡ 0 * 2 ^ 13 + level % 4 * 2 ^ 11 =
      rw (bit_and_ones 2 level) (omega arith) in
    let low : bit_or (x % 2 ^ 11) (level % 4 * 2 ^ 11) ≡ x % 2 ^ 11 + level % 4 * 2 ^ 11 =
      ap₂ {A = ℕ} {B = ℕ} bit_or (omega arith) (omega arith)
      ∙ bit_or_split 11 0 (x % 2 ^ 11) (level % 4) 0 (omega arith) (omega arith)
      ∙ rw (zero-bit_or (level % 4), bit_or-zero (x % 2 ^ 11)) (omega arith) in
    ap₂ bit_or cleared kept
    ∙ bit_or_split 13 (x / 2 ^ 13) (x % 2 ^ 11) 0 (level % 4 * 2 ^ 11) (omega arith) (omega arith)
    ∙ rw (bit_or-zero (x / 2 ^ 13), low) (omega arith)

-- The state in which `set_priv_m` leaves machine mode.
pub record IsLeft (level : ℕ) (s s' : Machine) : Type 0 where
  pub mpp : s'.csr.mstatus / 2 ^ 11 % 4 ≡ level % 4
  pub mstatus_low : s'.csr.mstatus % 2 ^ 11 ≡ s.csr.mstatus % 2 ^ 11
  pub mstatus_high : s'.csr.mstatus / 2 ^ 13 ≡ s.csr.mstatus / 2 ^ 13
  pub unpaged : s'.csr.satp ≡ 0
  pub delegated : (s'.csr.mideleg ≡ s.csr.mideleg) × (s'.csr.medeleg ≡ s.csr.medeleg)
  pub same_memory : s'.memory ≡ s.memory
  pub same_console : s'.console ≡ s.console

-- `set_priv_m`, where `mstatus` has 64 bits, leaves for the entry function with the device tree in
-- a0, the field MPP of `mstatus` holding the two low bits of the level and its other bits
-- unchanged, and with translation off; delegation, memory and console are unchanged.
pub set_priv_m-IsLeft :
    (level entry_func dtb : ℕ) (s : Machine)
    → s.csr.mstatus < 2 ^ 64
    → Returns
        (λ j s'. (j.pc ≡ entry_func) × (j.a0 ≡ dtb) × IsLeft level s s')
        (set_priv_m level entry_func dtb s)
unfolding set_priv_m mstatus_set_mpp
set_priv_m-IsLeft level entry_func dtb s h = returns (
  refl,
  refl,
  record {
    mpp = rw (set_mpp s.csr.mstatus level h) (omega arith);
    mstatus_low = rw (set_mpp s.csr.mstatus level h) (omega arith);
    mstatus_high = rw (set_mpp s.csr.mstatus level h) (omega arith);
    unpaged = refl;
    delegated = (refl, refl);
    same_memory = refl;
    same_console = refl;
  },
)
