-- ===== src/Trap.antt =====
-- src/trap.h and src/trap.c, with the timer registers of src/asm/mtimer.S. A register file is a
-- value at each of x1 to x31; `register_state_t` lies in memory, `mepc` first, then x1 to x31.
pub mod Handler
pub mod Saved
pub mod Entered
pub mod Transparent
pub mod Sequence
use fifth_kernel.Base.{
  ℕ, zero, suc, ◌+◌, ◌-◌, ◌*◌, ◌/◌, ◌%◌, ◌^◌, bit_and, bit_or, Bool, ◌||◌, ltb, ◌==◌, if◌then◌else◌,
  List, [], ◌∷◌,
}
use fifth_kernel.Memory.{Memory, load, store}
use fifth_kernel.Machine.{
  Machine, Run, done, fault, hang, out_of_fuel, Cmd, pure, and_then, ◌>>=◌, ◌>>◌, get, modify,
  printf, u64,
}
use fifth_kernel.Page.MapType

abbrev pub trap_m_ecall : ℕ
trap_m_ecall = 0xB

abbrev pub int_m_timer : ℕ
int_m_timer = 0x7

abbrev pub trap_s_ecall : ℕ
trap_s_ecall = 0x9

abbrev pub int_s_timer : ℕ
int_s_timer = 0x5

-- The memory-mapped timer.
abbrev pub mtimecmp : ℕ
mtimecmp = 0x2004000

abbrev pub mtime : ℕ
mtime = 0x200BFF8

abbrev pub read_mtime : Memory → ℕ
read_mtime m = load 8 m mtime

abbrev pub write_mtimecmp : Memory → ℕ → Memory
write_mtimecmp m value = store 8 m mtimecmp value

unfoldable pub handle_interrupt : (cause : ℕ) → Cmd (Unit {0})
handle_interrupt cause =
    if cause == int_m_timer || cause == int_s_timer
    then modify (λ s. record s {
      counter = u64 (s.counter + 1);
      memory = write_mtimecmp s.memory (u64 (read_mtime s.memory + 1000000));
    })
    else printf "Interrupt! cause: %#zX\n" (cause ∷ [])

-- `regs->mepc += 4`
unfoldable pub skip_instruction : (regs : ℕ) → Cmd (Unit {0})
skip_instruction regs =
    modify λ s. record s { memory = store 8 s.memory regs (u64 (load 8 s.memory regs + 4)) }

-- A cause that the switch does not name ends in `while(1)`.
unfoldable pub handle_trap : (cause regs : ℕ) → Cmd (Unit {0})
handle_trap cause regs =
    if cause == trap_m_ecall
    then skip_instruction regs
    else if cause == trap_s_ecall
    then skip_instruction regs
    else (do printf "Trap! cause: %#zX\n" (cause ∷ []); λ s. hang)

-- `(long long)scause < 0` is its top bit.
unfoldable pub trap_handler : (regs : ℕ) → Cmd (Unit {0})
trap_handler regs = do
  s ← get
  let cause = bit_and s.csr.scause (2 ^ 64 - 1 - 2 ^ 63)
  if ltb s.csr.scause (2 ^ 63) then handle_trap cause regs else handle_interrupt cause

abbrev pub Regs : Type 0
Regs = ℕ → ℕ

abbrev pub set_reg : Regs → (i v : ℕ) → Regs
set_reg x i v = λ j. if j == i then v else x j

-- The offsets from `sp`, as a store or load of the handler takes them.
abbrev pub slot : Regs → ℕ → ℕ
slot x i = u64 (x 2 + 8 * i)

-- `sd xi, (i*8)(sp)` for each register of the list.
unfoldable pub save_regs : List ℕ → Regs → Memory → Memory
save_regs [] x m = m
save_regs (i ∷ rest) x m = save_regs rest x (store 8 m (slot x i) (x i))

-- `ld xi, (i*8)(sp)` for each register of the list.
unfoldable pub restore_regs : List ℕ → Memory → Regs → Regs
restore_regs [] m x = x
restore_regs (i ∷ rest) m x = restore_regs rest m (set_reg x i (load 8 m (slot x i)))

abbrev pub saved : List ℕ
saved =
    1 ∷ 2 ∷ 3 ∷ 4 ∷ 5 ∷ 6 ∷ 7 ∷ 8 ∷ 9 ∷ 10 ∷ 11 ∷ 12 ∷ 13 ∷ 14 ∷ 15 ∷ 16 ∷ 17 ∷ 18 ∷ 19 ∷ 20 ∷ 21
    ∷ 22 ∷ 23 ∷ 24 ∷ 25 ∷ 26 ∷ 27 ∷ 28 ∷ 29 ∷ 30 ∷ 31 ∷ []

-- All but `sp`.
abbrev pub restored : List ℕ
restored =
    1 ∷ 3 ∷ 4 ∷ 5 ∷ 6 ∷ 7 ∷ 8 ∷ 9 ∷ 10 ∷ 11 ∷ 12 ∷ 13 ∷ 14 ∷ 15 ∷ 16 ∷ 17 ∷ 18 ∷ 19 ∷ 20 ∷ 21 ∷ 22
    ∷ 23 ∷ 24 ∷ 25 ∷ 26 ∷ 27 ∷ 28 ∷ 29 ∷ 30 ∷ 31 ∷ []

-- `csrrw sp, sscratch, sp`
abbrev pub swap_sp : Regs → Machine → Regs × Machine
swap_sp x s = (set_reg x 2 s.csr.sscratch, record s { csr = record s.csr { sscratch = x 2 } })

-- The code before `call trap_handler`.
unfoldable pub trap_entry : Regs → Machine → Regs × Machine
trap_entry x s =
    let (x1, s1) = swap_sp x s in
    let x2 = set_reg x1 2 (u64 (x1 2 + 2 ^ 64 - 256)) in
    let m1 = save_regs saved x2 s1.memory in
    let x3 = set_reg x2 1 s1.csr.sepc in
    let m2 = store 8 m1 (slot x3 0) (x3 1) in
    let x4 = set_reg x3 10 (x3 2) in (x4, record s1 { memory = m2 })

-- The code behind it, up to `sret`.
unfoldable pub trap_exit : Regs → Machine → Regs × Machine
trap_exit x s =
    let x1 = set_reg x 1 (load 8 s.memory (slot x 0)) in
    let s1 = record s { csr = record s.csr { sepc = x1 1 } } in
    let x2 = restore_regs restored s1.memory x1 in
    let x3 = set_reg x2 2 (u64 (x2 2 + 256)) in swap_sp x3 s1

-- `naked_trap_handler`; `call_regs` is what the compiled `trap_handler` leaves in the registers.
unfoldable pub naked_trap_handler : (call_regs : Regs → Regs) → Regs → Cmd Regs
naked_trap_handler call_regs x s =
    let (x1, s1) = trap_entry x s in
    (do trap_handler (x1 10); s2 ← get; let (x2, s3) = trap_exit (call_regs x1) s2; λ _. done x2 s3)
      s1

-- `init_traps`; `&` with the complement of three drops the two mode bits.
unfoldable pub init_traps : (naked_trap_handler trap_stack : ℕ) → Cmd (Unit {0})
init_traps naked_trap_handler trap_stack = do
  printf "Init stvec to trap handler function\n" []
  modify λ s. record s {
    csr = record s.csr {
      stvec =
          bit_and
            (u64
              (naked_trap_handler + MapType.higher_half_addr_start + 2 ^ 64 - s.kernel_start_addr))
            (2 ^ 64 - 1 - 3);
      sscratch = u64 (trap_stack + 4096);
    };
  }

unfoldable pub enable_interrupts : Cmd (Unit {0})
enable_interrupts = do
  printf "Enabling Interrupt\n" []
  modify λ s. record s { csr = record s.csr { sstatus = bit_or s.csr.sstatus 0x2; sie = 0xFF } }
