-- ===== src/Elf/Load.antt =====
-- `load_elf` of src/elf.c, and how it ends.
use fifth_kernel.Base.{
  ℕ, zero, suc, ◌+◌, ◌≡◌, refl, sym, ◌∙◌, arith, Bool, true, false, ◌&&◌, not, ◌==◌, String, List,
  [], ◌∷◌, if◌then◌else◌,
}
use fifth_kernel.Memory.{Memory, IsBytes}
use fifth_kernel.Machine.{Machine, done, printf, ◌>>◌, Cmd}
use fifth_kernel.Machine.Returns.{returns, mono}
use fifth_kernel.Machine.Prints.{
  OnlyPrints-refl, OnlyPrints-trans, OnlyPrints-memory, Prints, Prints-then, Prints-if,
  printf-Prints, pure-Prints, Nulls, Nulls-then, Nulls-if, printed,
}
use fifth_kernel.ElfFormat.{Ehdr, ehdr}
use fifth_kernel.Elf.{
  has_magic, print_section, print_sections, print_elf_header, print_headings, print_tables,
  read_segments, load_exec_elf, load_dynamic_elf, load_elf, refuse, no_segments,
}
use fifth_kernel.Elf.Headers.{read_segments_lem}
use fifth_kernel.Elf.Entries.{IsSmall, shent, elf_get_shent_lem}

print_section-Prints :
    (p table i : ℕ) (s : Machine) → IsSmall (ehdr s.memory p) → Prints s (print_section p table i s)
unfolding print_section
print_section-Prints p table i s small =
    rw (elf_get_shent_lem p i s small)
      (Prints-if s (shent s.memory p i == 0) _ _ (pure-Prints tt s) (printf-Prints s _ _))

print_sections-Prints :
    (left i p table : ℕ) (s : Machine)
    → IsSmall (ehdr s.memory p)
    → Prints s (print_sections left i p table s)
unfolding print_sections
print_sections-Prints zero i p table s small = pure-Prints tt s
print_sections-Prints (suc left) i p table s small =
    Prints-then s (print_section-Prints p table i s small) (λ _ s' prints.
      print_sections-Prints left (i + 1) p table s' (rw (OnlyPrints-memory s s' prints) small))

print_elf_header-Prints :
    (h : Ehdr) (table size : ℕ) (s : Machine) → Prints s (print_elf_header h table size s)
unfolding print_elf_header
print_elf_header-Prints h table size s = returns (_, refl)

read_segments-Prints :
    (p : ℕ) (m : Memory) (s : Machine)
    → s.memory ≡ m
    → IsBytes m
    → IsSmall (ehdr m p)
    → Prints s (read_segments (ehdr m p).e_phnum 0 p no_segments s)
read_segments-Prints p m s same bytes small =
    rw (sym same) (mono (read_segments_lem p s (rw same bytes) (rw same small)) (λ _ _ r. r.1))

print_headings-Prints : (s : Machine) → Prints s (print_headings s)
unfolding print_headings
print_headings-Prints s = returns (_, refl)

print_tables-Prints :
    (p table : ℕ) (s : Machine) (m : Memory)
    → s.memory ≡ m
    → IsBytes m
    → IsSmall (ehdr m p)
    → Prints s (print_tables (ehdr m p) p table s)
unfolding print_tables
print_tables-Prints p table s m same bytes small =
    Prints-then s (print_sections-Prints (ehdr m p).e_shnum 0 p table s (rw same small)) (λ _ s1 q1.
      Prints-then s1 (print_headings-Prints s1) (λ _ s2 q2.
        let all = OnlyPrints-trans s s1 s2 q1 q2 in
        read_segments-Prints p m s2 (OnlyPrints-memory s s2 all ∙ same) bytes small))

load_exec_elf-Nulls :
    (p : ℕ) (s : Machine)
    → IsBytes s.memory
    → IsSmall (ehdr s.memory p)
    → Nulls s (load_exec_elf p s)
unfolding load_exec_elf
load_exec_elf-Nulls p s bytes small =
    rw (elf_get_shent_lem p (ehdr s.memory p).e_shstrndx s small) (
      Nulls-if s (shent s.memory p (ehdr s.memory p).e_shstrndx == 0) _ _
        (returns (refl, OnlyPrints-refl s))
        (Nulls-then s (print_elf_header-Prints _ _ _ s) (λ _ s1 prints.
          Nulls-if s1 ((ehdr s.memory p).e_shstrndx == 0) _ _ (returns (refl, (_, refl))) (
            Nulls-then s1
              (print_tables-Prints p _ s1 s.memory (OnlyPrints-memory s s1 prints) bytes small)
              (λ _ s2 _. returns (refl, OnlyPrints-refl s2))))))

refuse-Nulls : (message : String) (s : Machine) → Nulls s (refuse message s)
refuse-Nulls message s = returns (refl, (_, refl))

-- `load_elf`, where the two tables of the file are short enough for an `int`, ends with `nullptr`
-- for every file, and changes nothing but the console.
pub load_elf-Nulls :
    (p : ℕ) (s : Machine) → IsBytes s.memory → IsSmall (ehdr s.memory p) → Nulls s (load_elf p s)
unfolding load_elf load_dynamic_elf
load_elf-Nulls p s bytes small =
    let h = ehdr s.memory p in
    Nulls-if s (not (has_magic h)) _ _ (refuse-Nulls _ s) (
      Nulls-if s (not (h.e_ident 4 == 2)) _ _ (refuse-Nulls _ s) (
        Nulls-if s (not (h.e_ident 5 == 1)) _ _ (refuse-Nulls _ s) (
          Nulls-if s (not (h.e_ident 6 == 1)) _ _ (refuse-Nulls _ s) (
            Nulls-if s (not (h.e_machine == 243)) _ _ (refuse-Nulls _ s) (
              Nulls-if s (h.e_type == 2) _ _
                (Nulls-then s (printf-Prints s _ _) (λ _ s1 q.
                  let same = OnlyPrints-memory s s1 q in
                  load_exec_elf-Nulls p s1 (rw same bytes) (rw same small)))
                (Nulls-if s (not (h.e_type == 3)) _ _ (refuse-Nulls _ s) (refuse-Nulls _ s)))))))

-- The file is a 64-bit little-endian executable of the current version for RISC-V.
abbrev pub is_executable : Memory → (p : ℕ) → Bool
is_executable m p =
    let h = ehdr m p in
    has_magic h
    && h.e_ident 4 == 2
    && h.e_ident 5 == 1
    && h.e_ident 6 == 1
    && h.e_machine == 243
    && h.e_type == 2

-- The message of the first check that fails, or the last one.
unfoldable pub first_failed : List (Bool × String) → (otherwise : String) → String
first_failed [] otherwise = otherwise
first_failed ((passed, message) ∷ rest) otherwise =
    if passed then first_failed rest otherwise else message

-- What a file is told that is no executable: the first check that fails in this order, and behind
-- these, by its type, ET_DYN or another.
abbrev pub message_of : Memory → (p : ℕ) → String
message_of m p =
    let h = ehdr m p in
    first_failed
      ((has_magic h, "ELF Magic Mismatch\n")
        ∷ (h.e_ident 4 == 2, "Elf not 64-bit executable\n")
        ∷ (h.e_ident 5 == 1, "Elf incompatible endianness\n")
        ∷ (h.e_ident 6 == 1, "ELF version mismatch\n")
        ∷ (h.e_machine == 243, "ELF is not for RISC-V\n")
        ∷ [])
      (if h.e_type == 3 then "ELF file is not an executable\n" else "ELF is DYNAMIC\n")

-- A test, its message, and what follows if it passes.
refused :
    (b : Bool) (message otherwise : String) (rest : Cmd ℕ) (s : Machine)
    → (b ≡ true → rest s ≡ done 0 (printed otherwise [] s))
    → (if not b then refuse message else rest) s
      ≡ done 0 (printed (if b then otherwise else message) [] s)
refused true message otherwise rest s next = next refl
refused false message otherwise rest s next = refl

-- Of a file that is no 64-bit little-endian executable of the current version for RISC-V with the
-- type ET_EXEC, `load_elf` reads the header alone: it ends with `nullptr` after exactly one message,
-- which has no argument. That is the message of the first of the checks of the magic number, the
-- class, the byte order, the version and the machine that fails. Where none does, a file of type
-- ET_DYN is reported as no executable and one of any other type as dynamic.
pub load_elf-message :
    (p : ℕ) (s : Machine)
    → is_executable s.memory p ≡ false
    → load_elf p s ≡ done 0 (printed (message_of s.memory p) [] s)
unfolding load_elf load_dynamic_elf first_failed
load_elf-message p s no_exec =
    let h = ehdr s.memory p in
    refused (has_magic h) _ _ _ s (λ e0. refused (h.e_ident 4 == 2) _ _ _ s (λ e1.
      refused (h.e_ident 5 == 1) _ _ _ s (λ e2. refused (h.e_ident 6 == 1) _ _ _ s (λ e3.
        refused (h.e_machine == 243) _ _ _ s (λ e4. by_type (h.e_type == 2) (h.e_type == 3) (λ e5.
          all_pass (has_magic h) (h.e_ident 4 == 2) (h.e_ident 5 == 1) (h.e_ident 6 == 1)
            (h.e_machine == 243) (h.e_type == 2) e0 e1 e2 e3 e4 e5 no_exec))))))
  where
    by_type :
        (exec dyn : Bool)
        → (exec ≡ true → ⊥)
        → (if exec
              then printf "ELF is EXEC\n" [] >> load_exec_elf p
              else if not dyn
              then printf "ELF is DYNAMIC\n" [] >> load_dynamic_elf p
              else refuse "ELF file is not an executable\n")
            s
          ≡ done 0
              (printed (if dyn then "ELF file is not an executable\n" else "ELF is DYNAMIC\n") [] s)
    by_type true dyn other = absurd (other refl)
    by_type false true other = refl
    by_type false false other = refl

    all_pass :
        (a b c d e f : Bool)
        → a ≡ true
        → b ≡ true
        → c ≡ true
        → d ≡ true
        → e ≡ true
        → f ≡ true
        → (a && b && c && d && e && f) ≡ false
        → ⊥
    all_pass a b c d e f e0 e1 e2 e3 e4 e5 failed = ground arith
