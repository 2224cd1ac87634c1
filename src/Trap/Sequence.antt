-- ===== src/Trap/Sequence.antt =====
-- Code that runs on the kernel of src/trap.c and is interrupted any number of times.
use fifth_kernel.Base.{
  ℕ, ◌+◌, ◌-◌, ◌^◌, ◌≤◌, ◌<◌, ◌≡◌, refl, ◌∙◌, arith, Bool, true, false, ◌&&◌, if◌then◌else◌, ◌⊎◌,
  inl, inr, Bool-cases,
}
use fifth_kernel.Machine.{Machine, done, u64}
use fifth_kernel.Machine.Returns.{Returns, returned}
use fifth_kernel.Trap.{Regs, naked_trap_handler, mtimecmp}
use fifth_kernel.Trap.Handler.{cause_of, is_timer}
use fifth_kernel.Trap.Saved.{IsWords}
use fifth_kernel.Trap.Transparent.{
  Resumes, handled, resume_at, ticks_after, naked_trap_handler-Resumes,
}

-- The registers and the state of the interrupted code.
pub record Hart : Type 0 where
  pub regs : Regs
  pub machine : Machine

-- What a processor writes when it takes a trap at `pc`.
abbrev pub trapped : (interrupt : Bool) (code pc : ℕ) → Machine → Machine
trapped interrupt code pc s = record s {
  csr = record s.csr { scause = cause_of interrupt code; sepc = pc };
}

-- From one hart to another with a number of timer interrupts between: the code runs, which may
-- change everything but `sscratch` and the tick counter, or a trap is taken that is handled.
pub data Reaches (call_regs : Regs → Regs) (h : Hart) : ℕ → Hart → Type 0 where
  start : Reaches call_regs h 0 h
  run :
      {n : ℕ} {h1 h2 : Hart}
      → Reaches call_regs h n h1
      → IsWords h2.regs
      → h2.machine.csr.sscratch ≡ h1.machine.csr.sscratch
      → h2.machine.counter ≡ h1.machine.counter
      → Reaches call_regs h n h2
  trap :
      {n : ℕ} {h1 h2 : Hart} (interrupt : Bool) (code pc : ℕ)
      → Reaches call_regs h n h1
      → code < 2 ^ 63
      → handled interrupt code ≡ true
      → pc < 2 ^ 64
      → naked_trap_handler call_regs h1.regs (trapped interrupt code pc h1.machine)
        ≡ done h2.regs h2.machine
      → Reaches call_regs h (if interrupt && is_timer code then n + 1 else n) h2

-- `sscratch` is the top of the trap stack, and every register a word.
pub record IsSound (top : ℕ) (h : Hart) : Type 0 where
  pub words : IsWords h.regs
  pub stack : h.machine.csr.sscratch ≡ top

module _ (call_regs : Regs → Regs) (keeps : (r : Regs) → call_regs r 2 ≡ r 2) (top : ℕ)
    (low : 256 ≤ top) (high : top < 2 ^ 64)
    (apart : (top ≤ mtimecmp) ⊎ (mtimecmp + 8 + 256 ≤ top)) where
  -- Whatever trap is taken next, it returns.
  abbrev pub CanTrap : Hart → Type 0
  CanTrap h =
      (interrupt : Bool) (code pc : ℕ)
      → code < 2 ^ 63
      → handled interrupt code ≡ true
      → pc < 2 ^ 64
      → Returns
          (Resumes (top - 256) (resume_at interrupt pc)
            (ticks_after interrupt code h.machine.counter) h.regs
            (trapped interrupt code pc h.machine))
          (naked_trap_handler call_regs h.regs (trapped interrupt code pc h.machine))

  pub IsSound-CanTrap : (h : Hart) → IsSound top h → CanTrap h
  IsSound-CanTrap h sound interrupt code pc small known fits = rw (← sound.stack) (
      naked_trap_handler-Resumes interrupt code call_regs h.regs
        (trapped interrupt code pc h.machine) small refl known (rw sound.stack low)
        (rw sound.stack high) (rw sound.stack apart) sound.words fits keeps)

  Resumes-IsSound :
      (h1 h2 : Hart) (pc ticks : ℕ) (s : Machine)
      → s.csr.sscratch ≡ top
      → IsWords h1.regs
      → Resumes (top - 256) pc ticks h1.regs s h2.regs h2.machine
      → IsSound top h2
  Resumes-IsSound h1 h2 pc ticks s at words resumes = record {
    words = λ j lo hi. rw (resumes.0 j lo hi) (words j lo hi);
    stack = resumes.1 ∙ at;
  }

  ticked :
      (interrupt : Bool) (code counter n ticks : ℕ)
      → ticks ≡ u64 (counter + n)
      → ticks_after interrupt code ticks
        ≡ u64 (counter + (if interrupt && is_timer code then n + 1 else n))
  ticked true code counter n ticks e = elim (Bool-cases (is_timer code)) [
    | inl timer ↦ rw timer (omega (arith, e))
    | inr other ↦ rw other e
  ]
  ticked false code counter n ticks e = e

  -- Code that is interrupted any number of times, from registers that are words and with `sscratch`
  -- at the top of a trap stack of at least 256 bytes that is apart from `mtimecmp`, where the
  -- compiled `trap_handler` keeps `sp`: the registers are words and `sscratch` is the top of the
  -- stack again, the tick counter has advanced by the number of timer interrupts (modulo 2^64), and
  -- whichever trap of a handled kind comes next, the handler returns and gives everything back.
  pub Reaches-IsSound :
      {n : ℕ} (h h' : Hart)
      → IsSound top h
      → h.machine.counter < 2 ^ 64
      → Reaches call_regs h n h'
      → IsSound top h' × (h'.machine.counter ≡ u64 (h.machine.counter + n)) × CanTrap h'
  Reaches-IsSound h h' sound small reaches =
      let (kept, counted) = invariant reaches in (kept, counted, IsSound-CanTrap h' kept)
    where
      invariant :
          {n : ℕ} {h1 : Hart}
          → Reaches call_regs h n h1
          → IsSound top h1 × (h1.machine.counter ≡ u64 (h.machine.counter + n))
      invariant start = (sound, omega (arith, small))
      invariant (run {h1} {h2} before words stack count) =
          let (old, counted) = invariant before in
          (record { words = words; stack = stack ∙ old.stack }, count ∙ counted)
      invariant (trap {n} {h1} {h2} interrupt code pc before few known fits e) =
          let (old, counted) = invariant before in
          let resumes = returned (IsSound-CanTrap h1 old interrupt code pc few known fits) e in
          (
            Resumes-IsSound h1 h2 (resume_at interrupt pc)
                (ticks_after interrupt code h1.machine.counter)
                (trapped interrupt code pc h1.machine) old.stack old.words resumes,
            resumes.4 ∙ ticked interrupt code h.machine.counter n h1.machine.counter counted,
          )
