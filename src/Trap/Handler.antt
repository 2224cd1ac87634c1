-- ===== src/Trap/Handler.antt =====
-- `trap_handler` of src/trap.c by its causes.
use fifth_kernel.Base.{
  ℕ, ◌+◌, ◌-◌, ◌^◌, ◌<◌, ◌≡◌, arith, Bool, true, false, ◌||◌, ◌==◌, if◌then◌else◌, [], ◌∷◌, bit_and,
  ◌∙◌, lt→ltb, le→not_ltb,
}
use fifth_kernel.Base.Bits.{bit_and_ones}
use fifth_kernel.Memory.{load, store}
use fifth_kernel.Machine.{Machine, done, hang, u64}
use fifth_kernel.Trap.{
  trap_m_ecall, trap_s_ecall, int_m_timer, int_s_timer, read_mtime, write_mtimecmp,
  handle_interrupt, handle_trap, skip_instruction, trap_handler,
}

-- The value of `scause` for an interrupt or an exception.
abbrev pub cause_of : (interrupt : Bool) (code : ℕ) → ℕ
cause_of interrupt code = if interrupt then 2 ^ 63 + code else code

-- A timer interrupt: one more tick, and the next one a million ticks of the timer later.
abbrev pub tick : Machine → Machine
tick s = record s {
  counter = u64 (s.counter + 1);
  memory = write_mtimecmp s.memory (u64 (read_mtime s.memory + 1000000));
}

-- An environment call: execution resumes behind the `ecall`.
abbrev pub resume_behind : (regs : ℕ) → Machine → Machine
resume_behind regs s = record s { memory = store 8 s.memory regs (u64 (load 8 s.memory regs + 4)) }

abbrev pub unknown_interrupt : (code : ℕ) → Machine → Machine
unknown_interrupt code s = record s {
  console = record { format = "Interrupt! cause: %#zX\n"; args = code ∷ [] } ∷ s.console;
}

abbrev pub is_timer : ℕ → Bool
is_timer code = code == int_m_timer || code == int_s_timer

abbrev pub is_ecall : ℕ → Bool
is_ecall code = code == trap_m_ecall || code == trap_s_ecall

masked :
    (interrupt : Bool) (code : ℕ)
    → code < 2 ^ 63
    → bit_and (cause_of interrupt code) (2 ^ 63 - 1) ≡ code
masked true code h = bit_and_ones 63 (2 ^ 63 + code) ∙ (omega arith)
masked false code h = bit_and_ones 63 code ∙ (omega arith)

-- For every value of `scause`, `trap_handler` advances the tick counter and re-arms the timer on a
-- timer interrupt, only reports another interrupt, moves the saved program counter behind the
-- instruction on an environment call, and never returns on any other exception.
pub trap_handler_lem :
    (interrupt : Bool) (code regs : ℕ) (s : Machine)
    → code < 2 ^ 63
    → s.csr.scause ≡ cause_of interrupt code
    → trap_handler regs s ≡ (
        if interrupt
        then (if is_timer code then done tt (tick s) else done tt (unknown_interrupt code s))
        else (if is_ecall code then done tt (resume_behind regs s) else hang))
unfolding trap_handler handle_interrupt handle_trap skip_instruction
trap_handler_lem true code regs s h e =
    rw (e, masked true code h, le→not_ltb (2 ^ 63 + code) (2 ^ 63) (omega arith)) (ground arith)
trap_handler_lem false code regs s h e =
    rw (e, masked false code h, lt→ltb code (2 ^ 63) h) (ground arith)
