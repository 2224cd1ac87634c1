-- ===== src/Elf/Headers.antt =====
-- The loop of `load_exec_elf` (src/elf.c) over the program headers.
use fifth_kernel.Elf.Entries.{IsSmall, phent, elf_get_phent_lem, print_header-Prints}
use fifth_kernel.Base.{
  ℕ, zero, suc, ◌+◌, ◌-◌, ◌^◌, ◌≤◌, ◌<◌, ◌≡◌, refl, sym, ◌∙◌, arith, Bool, true, false, ◌&&◌, not,
  ltb, ◌==◌, if◌then◌else◌, ◌⊎◌, inl, inr, Bool-cases, ==→eq, not_==→ne,
}
use fifth_kernel.Memory.{Memory, IsBytes, load}
use fifth_kernel.Memory.Words.{load-lt}
use fifth_kernel.Machine.{Machine, u64}
use fifth_kernel.Machine.Prints.{OnlyPrints, OnlyPrints-refl, OnlyPrints-trans, OnlyPrints-memory}
use fifth_kernel.Machine.Returns.{Returns, returns, bind, mono}
use fifth_kernel.ElfFormat.{ehdr, phdr}
use fifth_kernel.Elf.{Segments, count_segment, read_segment, read_segments, no_segments}

-- The header of an index is there and is that of a loadable segment.
abbrev pub is_loadable : Memory → (elf_header index : ℕ) → Bool
is_loadable m p i = not (phent m p i == 0) && (phdr m (phent m p i)).p_type == 1

pub loadable_count : Memory → (elf_header n : ℕ) → ℕ
loadable_count m p zero = 0
loadable_count m p (suc n) = (if is_loadable m p n then 1 else 0) + loadable_count m p n

-- The two counts after `n` headers: how many of them are loadable, and the lowest address of those,
-- 2 ^ 64 - 1 if there is none.
pub record IsSegments (m : Memory) (p n : ℕ) (c : Segments) : Type 0 where
  pub count : c.load_segments ≡ loadable_count m p n
  pub below :
      (j : ℕ)
      → j < n
      → is_loadable m p j ≡ true
      → c.lowest_virt_addr ≤ (phdr m (phent m p j)).p_vaddr
  pub attained :
      (c.lowest_virt_addr ≡ 2 ^ 64 - 1)
      ⊎ ((j : ℕ) × (j < n)
          × (is_loadable m p j ≡ true)
          × (c.lowest_virt_addr ≡ (phdr m (phent m p j)).p_vaddr))

loadable_count-le : (m : Memory) (p n : ℕ) → loadable_count m p n ≤ n
unfolding loadable_count
loadable_count-le m p zero = omega arith
loadable_count-le m p (suc n) = ground (arith, loadable_count-le m p n)

no_segments-IsSegments : (m : Memory) (p : ℕ) → IsSegments m p 0 no_segments
unfolding loadable_count
no_segments-IsSegments m p = record {
  count = refl;
  below = λ j h. absurd (omega arith);
  attained = inl refl;
}

-- One more header.
abbrev next_segments : Memory → (p i : ℕ) → Segments → Segments
next_segments m p i c = if phent m p i == 0 then c else count_segment (phdr m (phent m p i)) c

not_both : ¬ (true ≡ false)
not_both e = ground (arith, e)

module _ (m : Memory) (p i : ℕ) (c : Segments) (inv : IsSegments m p i c) where
  skipped-IsSegments : is_loadable m p i ≡ false → IsSegments m p (suc i) c
  unfolding loadable_count
  skipped-IsSegments other = record {
    count = rw other (omega (arith, inv.count));
    below = λ j h loadable. elim (Bool-cases (j == i)) [
      | inl same ↦ let at : j ≡ i = ==→eq j i same in absurd (not_both (sym loadable ∙ rw at other))
      | inr differ ↦ let ne = not_==→ne j i differ in inv.below j (omega arith) loadable
    ];
    attained = elim inv.attained [
      | inl none ↦ inl none
      | inr (j, h, loadable, at) ↦ inr (j, omega arith, loadable, at)
    ];
  }

  counted-IsSegments :
      (n : Segments)
      → i + 1 < 2 ^ 64
      → is_loadable m p i ≡ true
      → n.load_segments ≡ u64 (c.load_segments + 1)
      → n.lowest_virt_addr ≡ (
          let v = (phdr m (phent m p i)).p_vaddr in
          if ltb v c.lowest_virt_addr then v else c.lowest_virt_addr)
      → IsSegments m p (suc i) n
  unfolding loadable_count
  counted-IsSegments n h here count lowest = record {
    count = rw here (omega (arith, count, inv.count, loadable_count-le m p i));
    below = λ j h loadable. elim (Bool-cases (j == i)) [
      | inl same ↦ let at : j ≡ i = ==→eq j i same in rw at first
      | inr differ ↦
          let ne = not_==→ne j i differ in
          let old = inv.below j (omega arith) loadable in omega (arith, less)
    ];
    attained = elim (Bool-cases (ltb (phdr m (phent m p i)).p_vaddr c.lowest_virt_addr)) [
      | inl smaller ↦ inr (i, omega arith, here, lowest ∙ rw smaller)
      | inr kept ↦
          let same : n.lowest_virt_addr ≡ c.lowest_virt_addr = lowest ∙ rw kept in
          elim inv.attained [
            | inl none ↦ inl (same ∙ none)
            | inr (j, h, loadable, at) ↦ inr (j, omega arith, loadable, same ∙ at)
          ]
    ];
  }
    where
      first : n.lowest_virt_addr ≤ (phdr m (phent m p i)).p_vaddr
      first = rw lowest (ground arith)

      less : n.lowest_virt_addr ≤ c.lowest_virt_addr
      less = rw lowest (ground arith)

  next-IsSegments : i + 1 < 2 ^ 64 → IsSegments m p (suc i) (next_segments m p i c)
  next-IsSegments h = elim (Bool-cases (phent m p i == 0)) [
    | inl none ↦ rw none (skipped-IsSegments (rw none))
    | inr some ↦ elim (Bool-cases ((phdr m (phent m p i)).p_type == 1)) [
      | inl load ↦ rw (some, load) (counted-IsSegments _ h (rw (some, load)) refl refl)
      | inr other ↦ rw (some, other) (skipped-IsSegments (rw (some, other)))
    ]
  ]

read_segment_lem :
    (p i : ℕ) (c : Segments) (s : Machine)
    → IsSmall (ehdr s.memory p)
    → Returns
        (λ c' s'. (c' ≡ next_segments s.memory p i c) × OnlyPrints s s')
        (read_segment p i c s)
unfolding read_segment
read_segment_lem p i c s small =
    rw (elf_get_phent_lem p i s small) (elim (Bool-cases (phent s.memory p i == 0)) [
      | inl none ↦ rw none (returns (refl, OnlyPrints-refl s))
      | inr some ↦ rw some (
          bind (print_header-Prints (phdr s.memory (phent s.memory p i)) s)
            (λ _ s' p. returns (refl, p)))
    ])

read_segments_loop :
    (left i p : ℕ) (c : Segments) (s : Machine)
    → IsSmall (ehdr s.memory p)
    → i + left < 2 ^ 64
    → IsSegments s.memory p i c
    → Returns
        (λ c' s'. IsSegments s.memory p (i + left) c' × OnlyPrints s s')
        (read_segments left i p c s)
unfolding read_segments
read_segments_loop zero i p c s small h inv =
    let last : i + zero ≡ i = omega arith in returns (rw last inv, OnlyPrints-refl s)
read_segments_loop (suc left) i p c s small h inv =
    bind (read_segment_lem p i c s small) (λ c' s' r.
      let same : s'.memory ≡ s.memory = OnlyPrints-memory s s' r.1 in
      let next : IsSegments s.memory p (suc i) c' =
        rw r.0 (next-IsSegments s.memory p i c inv (omega arith)) in
      let one : i + 1 ≡ suc i = omega arith in
      let all : i + suc left ≡ suc i + left = omega arith in
      mono
        (read_segments_loop left (i + 1) p c' s' (rw same small) (omega arith)
          (rw (same, one) next))
        (λ c'' s'' (q, prints).
          (rw all (rw (same, one) at q), OnlyPrints-trans s s' s'' r.1 prints)))

-- The loop of `load_exec_elf` over the program headers, where the program headers' table is short
-- enough for an `int`, returns, changes nothing but the console, and has counted the loadable
-- segments and found the lowest address of one, 2 ^ 64 - 1 if there is none.
pub read_segments_lem :
    (p : ℕ) (s : Machine)
    → IsBytes s.memory
    → IsSmall (ehdr s.memory p)
    → Returns
        (λ c s'. IsSegments s.memory p (ehdr s.memory p).e_phnum c × OnlyPrints s s')
        (read_segments (ehdr s.memory p).e_phnum 0 p no_segments s)
read_segments_lem p s bytes small =
    let n = (ehdr s.memory p).e_phnum in
    let whole : 0 + n ≡ n = omega arith in
    mono
      (read_segments_loop n 0 p no_segments s small
        (omega (arith, load-lt 2 s.memory (p + 56) bytes)) (no_segments-IsSegments s.memory p))
      (λ c s' (q, prints). (rw whole at q, prints))
