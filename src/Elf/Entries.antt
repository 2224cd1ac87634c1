-- ===== src/Elf/Entries.antt =====
-- The entries of the two tables of an ELF file (src/elf.c), and the report of one.
use fifth_kernel.Base.{
  ℕ, suc, ◌+◌, ◌*◌, ◌^◌, ◌≤◌, ◌<◌, ◌≡◌, arith, true, ◌||◌, ltb, leb, ◌==◌, if◌then◌else◌,
}
use native.Mathlib.Nat.{mul-le-mul_right}
use fifth_kernel.Memory.{Memory}
use fifth_kernel.Machine.{Machine, done, u64}
use fifth_kernel.Machine.Prints.{Prints, Prints-then, Prints-if, printf-Prints}
use fifth_kernel.ElfFormat.{Ehdr, Phdr, ehdr, table_entry, elf_get_shent, elf_get_phent}
use fifth_kernel.Elf.{print_type, print_header}

-- The tables are short enough for the `int` products of their offsets.
pub record IsSmall (h : Ehdr) : Type 0 where
  pub sections : h.e_shnum * h.e_shentsize ≤ 2 ^ 31
  pub segments : h.e_phnum * h.e_phentsize ≤ 2 ^ 31

entry_small : (i n size : ℕ) → i < n → n * size ≤ 2 ^ 31 → ltb (i * size) (2 ^ 31) ≡ true
entry_small i n size h small = grind (arith, mul-le-mul_right {m = suc i} {n = n} size)

-- The address of a program header, 0 for none.
abbrev pub phent : Memory → (elf_header index : ℕ) → ℕ
phent m elf_header index =
    let h = ehdr m elf_header in
    if h.e_phoff == 0 || leb h.e_phnum index
    then 0
    else u64 (elf_header + h.e_phoff + index * h.e_phentsize)

abbrev pub shent : Memory → (elf_header index : ℕ) → ℕ
shent m elf_header index =
    let h = ehdr m elf_header in
    if h.e_shoff == 0 || leb h.e_shnum index
    then 0
    else u64 (elf_header + h.e_shoff + index * h.e_shentsize)

pub elf_get_phent_lem :
    (p i : ℕ) (s : Machine)
    → IsSmall (ehdr s.memory p)
    → elf_get_phent p i s ≡ done (phent s.memory p i) s
unfolding elf_get_phent table_entry
elf_get_phent_lem p i s small =
    ground (arith, entry_small i (ehdr s.memory p).e_phnum (ehdr s.memory p).e_phentsize)

pub elf_get_shent_lem :
    (p i : ℕ) (s : Machine)
    → IsSmall (ehdr s.memory p)
    → elf_get_shent p i s ≡ done (shent s.memory p i) s
unfolding elf_get_shent table_entry
elf_get_shent_lem p i s small =
    ground (arith, entry_small i (ehdr s.memory p).e_shnum (ehdr s.memory p).e_shentsize)

print_type-Prints : (t : ℕ) (s : Machine) → Prints s (print_type t s)
unfolding print_type
print_type-Prints t s = Prints-if s (t == 1) _ _ (printf-Prints s _ _) (
    Prints-if s (t == 2) _ _ (printf-Prints s _ _) (
      Prints-if s (t == 3) _ _ (printf-Prints s _ _) (
        Prints-if s (t == 4) _ _ (printf-Prints s _ _) (
          Prints-if s (t == 5) _ _ (printf-Prints s _ _) (
            Prints-if s (t == 6) _ _ (printf-Prints s _ _) (
              Prints-if s (t == 7) _ _ (printf-Prints s _ _) (
                Prints-if s (t == 0x70000003) _ _ (printf-Prints s _ _) (printf-Prints s _ _))))))))

pub print_header-Prints : (h : Phdr) (s : Machine) → Prints s (print_header h s)
unfolding print_header
print_header-Prints h s =
    Prints-if s (h.p_type == 0) _ _ (printf-Prints s _ _)
      (Prints-then s (print_type-Prints h.p_type s) (λ _ s' _. printf-Prints s' _ _))
