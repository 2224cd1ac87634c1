-- ===== src/Main/Rodata.antt =====
-- The relocation of the pointers in `.rodata` by `modify_rodata_ptrs` of src/main.c.
use fifth_kernel.Base.{
  ℕ, zero, suc, ◌+◌, ◌-◌, ◌*◌, ◌/◌, ◌^◌, ◌≤◌, ◌<◌, ◌≡◌, refl, ◌∙◌, arith, Bool, true, false, ◌&&◌,
  ◌==◌, if◌then◌else◌, ◌⊎◌, inl, inr, Bool-cases, eq→==,
}
use fifth_kernel.Memory.{Memory, IsBytes, load, store}
use fifth_kernel.Memory.Words.{store_outside, load-store, load-store_apart, load_ext, store-IsBytes}
use fifth_kernel.Machine.{Machine, done, out_of_fuel, u64}
use fifth_kernel.Machine.Returns.{Returns, returns, mono}
use fifth_kernel.Page.MapType
use fifth_kernel.Main.{is_kernel_pointer, ram_end, modify_loop, modify_rodata_ptrs, kernel_start}

-- What the loop makes of a pointer.
abbrev pub relocated : (kernel_start value : ℕ) → ℕ
relocated kernel_start value = u64 (value + MapType.higher_half_addr_start + 2 ^ 64 - kernel_start)

-- The words from `p` on are kernel pointers, up to the word of the index.
abbrev pub pointers_to : (kernel_start last : ℕ) → Memory → (p i : ℕ) → Bool
pointers_to kernel_start last m p zero = is_kernel_pointer kernel_start last (load 8 m p)
pointers_to kernel_start last m p (suc i) =
    is_kernel_pointer kernel_start last (load 8 m p) && pointers_to kernel_start last m (p + 8) i

-- Of the `n` words from `p` on, exactly those of the longest run of kernel pointers at its start
-- are relocated, and nothing else changed.
abbrev pub Relocates : (p n : ℕ) → Machine → Machine → Type 0
Relocates p n s s' =
    (m : Memory) × (s' ≡ record s { memory = m })
    × ((a : ℕ) → (a < p) ⊎ (p + 8 * n ≤ a) → m a ≡ s.memory a)
    × ((i : ℕ)
        → i < n
        → load 8 m (p + 8 * i) ≡ (
            let v = load 8 s.memory (p + 8 * i) in
            if pointers_to s.kernel_start_addr (ram_end s) s.memory p i
            then relocated s.kernel_start_addr v
            else v))
    × (IsBytes s.memory → IsBytes m)

pointers_to-store :
    (k l a v : ℕ) (m : Memory) (p i : ℕ)
    → a + 8 ≤ p
    → pointers_to k l (store 8 m a v) p i ≡ pointers_to k l m p i
pointers_to-store k l a v m p zero h = rw (load-store_apart 8 8 m a p v (inr h))
pointers_to-store k l a v m p (suc i) h =
    rw (load-store_apart 8 8 m a p v (inr h), pointers_to-store k l a v m (p + 8) i (omega arith))

not_pointer :
    (k l : ℕ) (m : Memory) (p i : ℕ)
    → is_kernel_pointer k l (load 8 m p) ≡ false
    → pointers_to k l m p i ≡ false
not_pointer k l m p zero h = h
not_pointer k l m p (suc i) h = rw h

module _ (p n : ℕ) (s : Machine)
    (pointer : is_kernel_pointer s.kernel_start_addr (ram_end s) (load 8 s.memory p) ≡ true) where
  first_stored : Memory
  first_stored = store 8 s.memory p (relocated s.kernel_start_addr (load 8 s.memory p))

  relocated_word :
      (m : Memory)
      → ((a : ℕ) → (a < p + 8) ⊎ (p + 8 + 8 * n ≤ a) → m a ≡ first_stored a)
      → ((i : ℕ)
          → i < n
          → load 8 m (p + 8 + 8 * i) ≡ (
              let v = load 8 first_stored (p + 8 + 8 * i) in
              if pointers_to s.kernel_start_addr (ram_end s) first_stored (p + 8) i
              then relocated s.kernel_start_addr v
              else v))
      → (i : ℕ) → i < suc n
      → load 8 m (p + 8 * i) ≡ (
          let v = load 8 s.memory (p + 8 * i) in
          if pointers_to s.kernel_start_addr (ram_end s) s.memory p i
          then relocated s.kernel_start_addr v
          else v)
  unfolding first_stored
  relocated_word m out words zero h =
      let here : p + 8 * 0 ≡ p = omega arith in
      let same : load 8 m p ≡ load 8 first_stored p =
        load_ext 8 m first_stored p (λ x low high. out x (inl high)) in
      rw (here, pointer)
        (same
          ∙ load-store 8 s.memory p (relocated s.kernel_start_addr (load 8 s.memory p))
          ∙ (omega arith))
  relocated_word m out words (suc i) h =
      let here : p + 8 * suc i ≡ p + 8 + 8 * i = omega arith in
      let r = relocated s.kernel_start_addr (load 8 s.memory p) in
      rw (here, pointer)
        (words i (omega arith)
          ∙ rw (
            load-store_apart 8 8 s.memory p (p + 8 + 8 * i) r (inr (omega arith)),
            pointers_to-store s.kernel_start_addr (ram_end s) p r s.memory (p + 8) i (omega arith),
          ))

  Relocates-step :
      (u : Unit {0}) (s' : Machine)
      → Relocates (p + 8) n (record s { memory = first_stored }) s'
      → Relocates p (suc n) s s'
  unfolding first_stored
  Relocates-step u s' (m, e, out, words, bytes) = (
    m,
    e,
    (λ a far.
        out a (ground (arith, far))
        ∙ store_outside 8 s.memory p (relocated s.kernel_start_addr (load 8 s.memory p)) a
            (ground (arith, far))),
    relocated_word m out words,
    λ h. bytes (store-IsBytes 8 s.memory p (relocated s.kernel_start_addr (load 8 s.memory p)) h),
  )

modify_loop_lem :
    (n p middle : ℕ) (s : Machine)
    → p + 8 * n ≡ middle
    → middle + 8 < 2 ^ 64
    → Returns (λ _ s'. Relocates p n s s') (modify_loop (suc n) p middle s)
unfolding modify_loop first_stored
modify_loop_lem zero p middle s at h =
    let here : (p == middle) ≡ true = eq→== p middle (omega arith) in
    rw here (
      stop (is_kernel_pointer s.kernel_start_addr (ram_end s) (load 8 s.memory p) && false)
        (ground arith))
  where
    stop :
        (b : Bool)
        → b ≡ false
        → Returns (λ _ s'. Relocates p 0 s s') (if b then out_of_fuel else done tt s)
    stop b e =
        rw e (returns (s.memory, refl, (λ _ _. refl), (λ i small. absurd (omega arith)), λ h. h))
modify_loop_lem (suc n) p middle s at h =
    let more : (p == middle) ≡ false = ground arith in
    elim (Bool-cases (is_kernel_pointer s.kernel_start_addr (ram_end s) (load 8 s.memory p))) [
      | inr other ↦
          rw (more, other)
            (returns (
              s.memory,
              refl,
              (λ _ _. refl),
              (λ i small. rw (not_pointer s.kernel_start_addr (ram_end s) s.memory p i other)),
              λ h. h,
            ))
      | inl pointer ↦
          let next : u64 (p + 8) ≡ p + 8 = omega arith in
          rw (more, pointer, next)
            (mono (modify_loop_lem n (p + 8) middle _ (omega arith) h)
              (Relocates-step p n s pointer))
    ]

-- `modify_rodata_ptrs`, on a section of whole words that ends below 2^64, ends, relocates to the
-- higher half exactly the longest run of words at its start that point into the kernel's memory,
-- and changes nothing else.
pub modify_rodata_ptrs-Relocates :
    (start n : ℕ) (s : Machine)
    → start + 8 * n + 8 < 2 ^ 64
    → Returns (λ _ s'. Relocates start n s s') (modify_rodata_ptrs start (start + 8 * n) s)
modify_rodata_ptrs-Relocates start n s h =
    let rounds : (start + 8 * n - start) / 8 + 1 ≡ suc n = omega arith in
    rw rounds (modify_loop_lem n start (start + 8 * n) s refl h)
