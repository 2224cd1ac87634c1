-- ===== src/Trap/Saved.antt =====
-- The frame on the trap stack of src/trap.c: what `naked_trap_handler` stores there, and its loads.
use fifth_kernel.Base.{
  ℕ, ◌+◌, ◌*◌, ◌%◌, ◌^◌, ◌≤◌, ◌<◌, ◌≡◌, ◌≢◌, refl, ◌∙◌, arith, Bool, true, false, ◌||◌, ◌==◌,
  if◌then◌else◌, List, [], ◌∷◌, ◌⊎◌, inl, inr, all_below, all_below_lem, Bool-cases, ==→eq,
  not_==→ne,
}
use fifth_kernel.Memory.{Memory, load, store}
use fifth_kernel.Memory.Words.{load-store, load-store_apart, store_outside}
use fifth_kernel.Trap.{Regs, set_reg, slot, save_regs, restore_regs, saved, restored}

abbrev mem_reg : ℕ → List ℕ → Bool
mem_reg j [] = false
mem_reg j (i ∷ rest) = (j == i) || mem_reg j rest

abbrev Below32 : List ℕ → Type 0
Below32 [] = Unit {0}
Below32 (i ∷ rest) = (i < 32) × Below32 rest

-- What is saved in the slot of a register.
save_regs-load :
    (is : List ℕ) (x : Regs) (m : Memory) (sp j : ℕ)
    → x 2 ≡ sp
    → sp + 256 ≤ 2 ^ 64
    → Below32 is
    → j < 32
    → load 8 (save_regs is x m) (sp + 8 * j)
      ≡ (if mem_reg j is then x j % 2 ^ 64 else load 8 m (sp + 8 * j))
unfolding save_regs
save_regs-load [] x m sp j e h bound small = refl
save_regs-load (i ∷ rest) x m sp j e h bound small =
    save_regs-load rest x m' sp j e h bound.1 small ∙ cases (Bool-cases (j == i))
  where
    m' : Memory
    m' = store 8 m (slot x i) (x i)

    at_slot : slot x i ≡ sp + 8 * i
    at_slot = omega (arith, bound.0)

    cases :
        ((j == i) ≡ true) ⊎ ((j == i) ≡ false)
        → (if mem_reg j rest then x j % 2 ^ 64 else load 8 m' (sp + 8 * j))
          ≡ (if (j == i) || mem_reg j rest then x j % 2 ^ 64 else load 8 m (sp + 8 * j))
    cases (inl same) =
        let at : j ≡ i = ==→eq j i same in
        let new : load 8 m' (sp + 8 * j) ≡ x j % 2 ^ 64 =
          rw (at_slot, at) (load-store 8 m (sp + 8 * i) (x i)) in
        rw (same, new) (ground arith)
    cases (inr other) =
        let ne = not_==→ne j i other in
        let old : load 8 m' (sp + 8 * j) ≡ load 8 m (sp + 8 * j) =
          rw at_slot (load-store_apart 8 8 m (sp + 8 * i) (sp + 8 * j) (x i) (apart i ne)) in
        rw (other, old)
      where
        apart : (i : ℕ) → j ≢ i → (sp + 8 * j + 8 ≤ sp + 8 * i) ⊎ (sp + 8 * i + 8 ≤ sp + 8 * j)
        apart i ne = ground arith

save_regs_outside :
    (is : List ℕ) (x : Regs) (m : Memory) (sp a : ℕ)
    → x 2 ≡ sp
    → sp + 256 ≤ 2 ^ 64
    → Below32 is
    → (a < sp) ⊎ (sp + 256 ≤ a)
    → save_regs is x m a ≡ m a
unfolding save_regs
save_regs_outside [] x m sp a e h bound out = refl
save_regs_outside (i ∷ rest) x m sp a e h bound out =
    save_regs_outside rest x (store 8 m (slot x i) (x i)) sp a e h bound.1 out
    ∙ store_outside 8 m (slot x i) (x i) a (far out)
  where
    far : (a < sp) ⊎ (sp + 256 ≤ a) → (a < slot x i) ⊎ (slot x i + 8 ≤ a)
    far (inl p) = inl (omega (arith, bound.0))
    far (inr p) = inr (omega (arith, bound.0))

-- What is loaded into a register.
restore_regs-at :
    (is : List ℕ) (m : Memory) (x : Regs) (j : ℕ)
    → mem_reg 2 is ≡ false
    → restore_regs is m x j ≡ (if mem_reg j is then load 8 m (slot x j) else x j)
unfolding restore_regs
restore_regs-at [] m x j no_sp = refl
restore_regs-at (i ∷ rest) m x j no_sp =
    ground (arith, restore_regs-at rest m (set_reg x i (load 8 m (slot x i))) j (ground arith))

-- The frame at `sp` holds the saved program counter and every register but `sp`.
abbrev pub Holds : (sp pc : ℕ) → Regs → Memory → Type 0
Holds sp pc x m =
    (load 8 m sp ≡ pc) × ((j : ℕ) → 1 ≤ j → j < 32 → j ≢ 2 → load 8 m (sp + 8 * j) ≡ x j)

-- Each of x1 to x31 fits 64 bits.
abbrev pub IsWords : Regs → Type 0
IsWords x = (j : ℕ) → 1 ≤ j → j < 32 → x j < 2 ^ 64

abbrev pub Outside : (a first size : ℕ) → Type 0
Outside a first size = (a < first) ⊎ (first + size ≤ a)

saved_all : (j : ℕ) → 1 ≤ j → j < 32 → mem_reg j saved ≡ true
unfolding all_below
saved_all j low high = ground (arith, all_below_lem 32 (λ i. i == 0 || mem_reg i saved) j refl high)

restored_all : (j : ℕ) → 1 ≤ j → j < 32 → j ≢ 2 → mem_reg j restored ≡ true
unfolding all_below
restored_all j low high ne =
    ground (arith, all_below_lem 32 (λ i. i == 0 || i == 2 || mem_reg i restored) j refl high)

saved_below : Below32 saved
saved_below = ground arith

-- What the code before the call leaves in memory.
pub saved_frame :
    (x y : Regs) (m : Memory) (sp w pc : ℕ)
    → sp + 256 ≤ 2 ^ 64
    → y 2 ≡ sp
    → w ≡ sp
    → ((j : ℕ) → j ≢ 2 → y j ≡ x j)
    → IsWords x
    → pc < 2 ^ 64
    → Holds sp pc x (store 8 (save_regs saved y m) w pc)
saved_frame x y m sp w pc h at_sp e same small pc_small =
    let first : load 8 (store 8 (save_regs saved y m) w pc) sp ≡ pc =
      rw e (load-store 8 (save_regs saved y m) sp pc ∙ (omega (arith, pc_small))) in
    (first, reg)
  where
    reg :
        (j : ℕ)
        → 1 ≤ j
        → j < 32
        → j ≢ 2
        → load 8 (store 8 (save_regs saved y m) w pc) (sp + 8 * j) ≡ x j
    reg j low high ne =
        let apart : load 8 (store 8 (save_regs saved y m) sp pc) (sp + 8 * j)
            ≡ load 8 (save_regs saved y m) (sp + 8 * j) =
          load-store_apart 8 8 (save_regs saved y m) sp (sp + 8 * j) pc (inr (omega arith)) in
        let kept : load 8 (save_regs saved y m) (sp + 8 * j) ≡ y j % 2 ^ 64 =
          save_regs-load saved y m sp j at_sp h saved_below high ∙ rw (saved_all j low high) in
        rw e (apart ∙ kept ∙ rw (same j ne) (omega (arith, small j low high)))

pub saved-Outside :
    (y : Regs) (m : Memory) (sp w pc a : ℕ)
    → sp + 256 ≤ 2 ^ 64
    → y 2 ≡ sp
    → w ≡ sp
    → Outside a sp 256
    → store 8 (save_regs saved y m) w pc a ≡ m a
saved-Outside y m sp w pc a h at_sp e out =
    store_outside 8 (save_regs saved y m) w pc a (ground (arith, e))
    ∙ save_regs_outside saved y m sp a at_sp h saved_below out

-- What the code behind the call loads.
pub loaded_frame :
    (x y : Regs) (m : Memory) (sp pc j : ℕ)
    → sp + 256 ≤ 2 ^ 64
    → y 2 ≡ sp
    → Holds sp pc x m
    → 1 ≤ j
    → j < 32
    → j ≢ 2
    → restore_regs restored m y j ≡ x j
loaded_frame x y m sp pc j h at_sp holds low high ne =
    let at : slot y j ≡ sp + 8 * j = omega (arith, at_sp) in
    restore_regs-at restored m y j refl
    ∙ rw (restored_all j low high ne, at) (holds.1 j low high ne)

pub loaded_sp : (y : Regs) (m : Memory) → restore_regs restored m y 2 ≡ y 2
loaded_sp y m = restore_regs-at restored m y 2 refl

-- A store apart from the frame keeps it.
pub Holds-store :
    (sp pc a v : ℕ) (x : Regs) (m : Memory)
    → (sp + 256 ≤ a) ⊎ (a + 8 ≤ sp)
    → Holds sp pc x m
    → Holds sp pc x (store 8 m a v)
Holds-store sp pc a v x m apart holds = (
  load-store_apart 8 8 m a sp v (ground (arith, apart)) ∙ holds.0,
  λ j low high ne.
      load-store_apart 8 8 m a (sp + 8 * j) v (side j high apart) ∙ holds.1 j low high ne,
)
  where
    side :
        (j : ℕ)
        → j < 32
        → (sp + 256 ≤ a) ⊎ (a + 8 ≤ sp)
        → (sp + 8 * j + 8 ≤ a) ⊎ (a + 8 ≤ sp + 8 * j)
    side j high (inl p) = inl (omega arith)
    side j high (inr p) = inr (omega arith)

-- A new value of the saved program counter keeps the registers.
pub Holds-skip :
    (sp pc next : ℕ) (x : Regs) (m : Memory)
    → next < 2 ^ 64
    → Holds sp pc x m
    → Holds sp next x (store 8 m sp next)
Holds-skip sp pc next x m small holds = (
  load-store 8 m sp next ∙ (omega (arith, small)),
  λ j low high ne.
      load-store_apart 8 8 m sp (sp + 8 * j) next (inr (omega arith)) ∙ holds.1 j low high ne,
)
