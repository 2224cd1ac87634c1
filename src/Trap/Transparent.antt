-- ===== src/Trap/Transparent.antt =====
-- `naked_trap_handler` of src/trap.c as a whole.
use fifth_kernel.Trap.Entered.{Entered, trap_entry-Entered}
use fifth_kernel.Base.{
  ℕ, ◌+◌, ◌-◌, ◌^◌, ◌≤◌, ◌<◌, ◌≡◌, refl, ◌∙◌, arith, Bool, true, false, ◌||◌, ◌==◌, if◌then◌else◌,
  ◌⊎◌, inl, inr, Bool-cases, ==→eq, not_==→ne, ap,
}
use fifth_kernel.Memory.{load}
use fifth_kernel.Memory.Words.{store_outside}
use fifth_kernel.Machine.{Machine, u64}
use fifth_kernel.Machine.Returns.{Returns, returns, bind}
use fifth_kernel.Trap.{
  Regs, set_reg, slot, restore_regs, restored, trap_entry, trap_exit, naked_trap_handler,
  trap_handler, mtimecmp, mtime,
}
use fifth_kernel.Trap.Handler.{cause_of, is_timer, is_ecall, trap_handler_lem}
use fifth_kernel.Trap.Saved.{
  Holds, Outside, loaded_frame, loaded_sp, Holds-store, Holds-skip, IsWords,
}

-- The registers and state that a trap is to give back.
abbrev pub Resumes : (sp pc ticks : ℕ) (x : Regs) (s : Machine) → Regs → Machine → Type 0
Resumes sp pc ticks x s x' s' =
    ((i : ℕ) → 1 ≤ i → i < 32 → x' i ≡ x i)
    × (s'.csr.sscratch ≡ s.csr.sscratch)
    × (s'.csr.sepc ≡ pc)
    × ((a : ℕ) → Outside a sp 256 → Outside a mtimecmp 8 → s'.memory a ≡ s.memory a)
    × (s'.counter ≡ ticks)

exit_Resumes :
    (x y : Regs) (s s' : Machine) (sp pc ticks : ℕ)
    → sp + 256 ≡ s.csr.sscratch
    → s.csr.sscratch < 2 ^ 64
    → y 2 ≡ sp
    → s'.csr.sscratch ≡ x 2
    → Holds sp pc x s'.memory
    → ((a : ℕ) → Outside a sp 256 → Outside a mtimecmp 8 → s'.memory a ≡ s.memory a)
    → s'.counter ≡ ticks
    → Resumes sp pc ticks x s (trap_exit y s').0 (trap_exit y s').1
unfolding trap_exit
exit_Resumes x y s s' sp pc ticks top bound at_sp scratch holds far counted = (
  reg,
  rw (loaded_sp (set_reg y 1 (load 8 s'.memory (slot y 0))) s'.memory, at_sp) (omega (arith, top)),
  pc_back,
  far,
  counted,
)
  where
    pc_back : load 8 s'.memory (slot y 0) ≡ pc
    pc_back = let at : slot y 0 ≡ sp = omega (arith, at_sp, top) in rw at (holds.0)

    reg :
        (i : ℕ)
        → 1 ≤ i
        → i < 32
        → set_reg
            (set_reg
              (restore_regs restored s'.memory (set_reg y 1 (load 8 s'.memory (slot y 0))))
              2
              (u64 (
                restore_regs restored s'.memory (set_reg y 1 (load 8 s'.memory (slot y 0))) 2
                + 256)))
            2
            s'.csr.sscratch
            i
          ≡ x i
    reg i low high = elim (Bool-cases (i == 2)) [
      | inl same ↦ let at : i ≡ 2 = ==→eq i 2 same in rw (same, at) scratch
      | inr other ↦ rw other (
          loaded_frame x (set_reg y 1 (load 8 s'.memory (slot y 0))) s'.memory sp pc i (omega arith)
            at_sp holds low high (not_==→ne i 2 other))
    ]

-- A trap of a kind that the kernel handles, by its cause.
abbrev pub handled : (interrupt : Bool) (code : ℕ) → Bool
handled interrupt code = interrupt || is_ecall code

-- Where the trapped code goes on.
abbrev pub resume_at : (interrupt : Bool) (sepc : ℕ) → ℕ
resume_at interrupt sepc = if interrupt then sepc else u64 (sepc + 4)

-- The ticks counted after it.
abbrev pub ticks_after : (interrupt : Bool) (code counter : ℕ) → ℕ
ticks_after interrupt code counter =
    if interrupt then (if is_timer code then u64 (counter + 1) else counter) else counter

-- What `trap_handler` does to the frame and to the rest of the state.
abbrev pub Handled : (sp pc ticks : ℕ) (x : Regs) (s : Machine) → Unit {0} → Machine → Type 0
Handled sp pc ticks x s _ s' =
    (s'.csr.sscratch ≡ s.csr.sscratch)
    × Holds sp pc x s'.memory
    × ((a : ℕ) → Outside a sp 256 → Outside a mtimecmp 8 → s'.memory a ≡ s.memory a)
    × (s'.counter ≡ ticks)

trap_handler-Handled :
    (interrupt : Bool) (code sp pc : ℕ) (x : Regs) (s : Machine)
    → code < 2 ^ 63
    → s.csr.scause ≡ cause_of interrupt code
    → handled interrupt code ≡ true
    → (sp + 256 ≤ mtimecmp) ⊎ (mtimecmp + 8 ≤ sp)
    → Holds sp pc x s.memory
    → Returns
        (Handled sp (resume_at interrupt pc) (ticks_after interrupt code s.counter) x s)
        (trap_handler sp s)
trap_handler-Handled true code sp pc x s small cause known apart holds =
    rw (trap_handler_lem true code sp s small cause) (elim (Bool-cases (is_timer code)) [
      | inl timer ↦ rw timer (
          returns (
            refl,
            Holds-store sp pc mtimecmp (u64 (load 8 s.memory mtime + 1000000)) x s.memory apart
                holds,
            λ a _ far.
                store_outside 8 s.memory mtimecmp (u64 (load 8 s.memory mtime + 1000000)) a far,
            refl,
          ))
      | inr other ↦ rw other (returns (refl, holds, (λ a _ _. refl), refl))
    ])
trap_handler-Handled false code sp pc x s small cause known apart holds =
    rw (trap_handler_lem false code sp s small cause, known)
      (returns (
        refl,
        rw holds.0 (Holds-skip sp pc (u64 (pc + 4)) x s.memory (omega arith) holds),
        λ a far _.
            store_outside 8 s.memory sp (u64 (load 8 s.memory sp + 4)) a (ground (arith, far)),
        refl,
      ))

-- A trap whose cause is an interrupt or an environment call, taken with `sscratch` at the top of a
-- trap stack of at least 256 bytes below 2^64 that is apart from `mtimecmp`, with every register
-- and `sepc` below 2^64, and where the compiled `trap_handler` keeps `sp`: the handler returns,
-- x1 to x31 are what they were, `sscratch` is the top of the trap stack again, `sepc` is unchanged
-- after an interrupt and four more (modulo 2^64) after an environment call, and no byte of memory
-- but those of the frame and of `mtimecmp` has changed. The tick counter is one more (modulo 2^64)
-- after a timer interrupt and the same after any other trap.
pub naked_trap_handler-Resumes :
    (interrupt : Bool) (code : ℕ) (call_regs : Regs → Regs) (x : Regs) (s : Machine)
    → code < 2 ^ 63
    → s.csr.scause ≡ cause_of interrupt code
    → handled interrupt code ≡ true
    → 256 ≤ s.csr.sscratch
    → s.csr.sscratch < 2 ^ 64
    → (s.csr.sscratch ≤ mtimecmp) ⊎ (mtimecmp + 8 + 256 ≤ s.csr.sscratch)
    → IsWords x
    → s.csr.sepc < 2 ^ 64
    → ((r : Regs) → call_regs r 2 ≡ r 2)
    → Returns
        (Resumes
          (s.csr.sscratch - 256)
          (resume_at interrupt s.csr.sepc)
          (ticks_after interrupt code s.counter)
          x
          s)
        (naked_trap_handler call_regs x s)
unfolding naked_trap_handler
naked_trap_handler-Resumes interrupt code call_regs x s small cause known low high apart regs pc
      keeps =
    bind
      {P = Handled sp (resume_at interrupt s.csr.sepc) (ticks_after interrupt code s1.counter) x s1}
      {r = trap_handler (y 10) s1}
      (rw entered.1 (
        trap_handler-Handled interrupt code sp s.csr.sepc x s1 small (entered.3 ∙ cause) known
          (ground (arith, low, apart)) entered.4))
      (λ u s2 kept. returns (
        exit_Resumes x (call_regs y) s s2 sp (resume_at interrupt s.csr.sepc)
          (ticks_after interrupt code s.counter) (omega (arith, low)) high (keeps y ∙ entered.0)
          (kept.0 ∙ entered.2) kept.1 (λ a out far. kept.2 a out far ∙ entered.5 a out)
          (kept.3 ∙ ap (ticks_after interrupt code) entered.6)))
  where
    sp : ℕ
    sp = s.csr.sscratch - 256

    y : Regs
    y = (trap_entry x s).0

    s1 : Machine
    s1 = (trap_entry x s).1

    entered : Entered x s y s1
    entered = trap_entry-Entered x s low high regs pc
