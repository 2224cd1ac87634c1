-- ===== src/Privilege.antt =====
-- src/csr.c and src/priv.c: the way from machine mode into `kernel_init`.
pub mod Mpp
use fifth_kernel.Base.{ℕ, ◌+◌, ◌-◌, ◌*◌, ◌/◌, ◌%◌, ◌^◌, bit_and, bit_or}
use fifth_kernel.Machine.{Machine, done, Cmd, pure, and_then, ◌>>=◌, ◌>>◌, get, modify, u64}

unfoldable pub mstatus_set_mpp : (level : ℕ) → Cmd (Unit {0})
mstatus_set_mpp level = modify λ s.
    let cleared = bit_and s.csr.mstatus (2 ^ 64 - 1 - 3 * 2 ^ 11) in
    record s { csr = record s.csr { mstatus = bit_or cleared (u64 (bit_and level 3 * 2 ^ 11)) } }

-- What `mret` jumps to, and the argument register.
pub record Jump : Type 0 where
  pub pc : ℕ
  pub a0 : ℕ

-- A write of a register is read back as written. `mret` does not come back.
unfoldable pub set_priv_m : (level entry_func dtb : ℕ) → Cmd Jump
set_priv_m level entry_func dtb = do
  mstatus_set_mpp level
  modify λ s. record s {
    csr = record s.csr { mepc = entry_func; satp = 0; pmpaddr0 = 0x3fffffffffffff; pmpcfg0 = 0xf };
  }
  s ← get
  pure (record { pc = s.csr.mepc; a0 = dtb })
