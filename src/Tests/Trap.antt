-- ===== src/Tests/Trap.antt =====
-- src/trap.c on an environment call from supervisor mode.
use fifth_kernel.Trap.Sequence.{
  Hart, trapped, Reaches, start, trap, IsSound, CanTrap, Reaches-IsSound,
}
use fifth_kernel.Base.{◌+◌, ◌*◌, ◌^◌, ◌≡◌, refl, arith, false, inr, ◌⊎◌, true, ◌≤◌}
use fifth_kernel.Machine.{Machine, done, u64}
use fifth_kernel.Machine.Returns.{Returns, ended}
use fifth_kernel.Trap.{Regs, trap_handler, naked_trap_handler, trap_s_ecall, int_s_timer, mtimecmp}
use fifth_kernel.Trap.Handler.{resume_behind, trap_handler_lem}
use fifth_kernel.Trap.Transparent.{Resumes, naked_trap_handler-Resumes}
use fifth_kernel.Tests.Values.{ram, no_csr, zeros, machine}

abbrev called : Machine
called =
    machine (record no_csr { scause = trap_s_ecall; sepc = ram + 64; sscratch = ram + 8192 }) zeros

abbrev regs : Regs
regs i = 3 * 2 ^ 40

-- The compiled `trap_handler` leaves its registers alone.
abbrev kept : Regs → Regs
kept r = r

trap_handler_lem_example :
    trap_handler (ram + 7936) called ≡ done tt (resume_behind (ram + 7936) called)
trap_handler_lem_example =
    trap_handler_lem false trap_s_ecall (ram + 7936) called (omega arith) refl

naked_trap_handler-Resumes_example :
    Returns (Resumes (ram + 7936) (ram + 68) 0 regs called) (naked_trap_handler kept regs called)
naked_trap_handler-Resumes_example =
    naked_trap_handler-Resumes false trap_s_ecall kept regs called (omega arith) refl refl
      (omega arith) (omega arith) (inr (omega arith)) (λ i _ _. omega arith) (omega arith)
      (λ r. refl)

abbrev hart : Hart
hart = record { regs = regs; machine = called }

hart-IsSound : IsSound (ram + 8192) hart
hart-IsSound = record { words = λ j _ _. omega arith; stack = refl }

apart : (ram + 8192 ≤ mtimecmp) ⊎ (mtimecmp + 8 + 256 ≤ ram + 8192)
apart = inr (omega arith)

-- A timer interrupt is taken at `ram + 64`.
interrupted :
    (x : Regs) × (s : Machine) × (naked_trap_handler kept regs
        (trapped true int_s_timer (ram + 64) called)
      ≡ done x s)
interrupted = ended (
    naked_trap_handler-Resumes true int_s_timer kept regs
      (trapped true int_s_timer (ram + 64) called) (omega arith) refl refl (omega arith)
      (omega arith) apart (λ i _ _. omega arith) (omega arith) (λ r. refl))

abbrev behind : Hart
behind = record { regs = interrupted.0; machine = interrupted.1 }

hart-Reaches : Reaches kept hart 1 behind
hart-Reaches = trap true int_s_timer (ram + 64) start (omega arith) refl (omega arith) interrupted.2

Reaches-IsSound_example :
    IsSound (ram + 8192) behind
    × (behind.machine.counter ≡ u64 (hart.machine.counter + 1))
    × CanTrap kept (λ r. refl) (ram + 8192) (omega arith) (omega arith) apart behind
Reaches-IsSound_example =
    Reaches-IsSound kept (λ r. refl) (ram + 8192) (omega arith) (omega arith) apart hart behind
      hart-IsSound (omega arith) hart-Reaches
