-- ===== src/Trap/Entered.antt =====
-- The code of `naked_trap_handler` in src/trap.c before its call.
use fifth_kernel.Base.{ℕ, ◌+◌, ◌-◌, ◌^◌, ◌≤◌, ◌<◌, ◌≡◌, ◌≢◌, refl, arith, ne→not_==}
use fifth_kernel.Machine.{Machine, u64}
use fifth_kernel.Trap.{Regs, set_reg, trap_entry}
use fifth_kernel.Trap.Saved.{Holds, Outside, saved_frame, saved-Outside, IsWords}

-- What the code before the call leaves.
abbrev pub Entered : (x : Regs) (s : Machine) → Regs → Machine → Type 0
Entered x s y s' =
    (y 2 ≡ s.csr.sscratch - 256)
    × (y 10 ≡ s.csr.sscratch - 256)
    × (s'.csr.sscratch ≡ x 2)
    × (s'.csr.scause ≡ s.csr.scause)
    × Holds (s.csr.sscratch - 256) s.csr.sepc x s'.memory
    × ((a : ℕ) → Outside a (s.csr.sscratch - 256) 256 → s'.memory a ≡ s.memory a)
    × (s'.counter ≡ s.counter)

pub trap_entry-Entered :
    (x : Regs) (s : Machine)
    → 256 ≤ s.csr.sscratch
    → s.csr.sscratch < 2 ^ 64
    → IsWords x
    → s.csr.sepc < 2 ^ 64
    → Entered x s (trap_entry x s).0 (trap_entry x s).1
unfolding trap_entry
trap_entry-Entered x s low high small pc = (
  at_sp,
  at_sp,
  refl,
  refl,
  saved_frame x y s.memory sp (u64 (w + 0)) s.csr.sepc room at_sp again same small pc,
  λ a out. saved-Outside y s.memory sp (u64 (w + 0)) s.csr.sepc a room at_sp again out,
  refl,
)
  where
    sp : ℕ
    sp = s.csr.sscratch - 256

    w : ℕ
    w = u64 (s.csr.sscratch + 2 ^ 64 - 256)

    y : Regs
    y = set_reg (set_reg x 2 s.csr.sscratch) 2 w

    room : sp + 256 ≤ 2 ^ 64
    room = omega (arith, low, high)

    at_sp : w ≡ sp
    at_sp = omega (arith, low, high)

    again : u64 (w + 0) ≡ sp
    again = omega (arith, low, high)

    same : (j : ℕ) → j ≢ 2 → y j ≡ x j
    same j ne = rw (ne→not_== j 2 ne)
