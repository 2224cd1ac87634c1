-- ===== src/Elf.antt =====
-- src/elf.c: what `load_elf` reports of an ELF file in memory. A pointer is its address, 0 for
-- `nullptr`.
pub mod Entries
pub mod Headers
pub mod Load
use fifth_kernel.Base.{
  ℕ, zero, suc, ◌+◌, ◌-◌, ◌*◌, ◌/◌, ◌%◌, ◌^◌, Bool, ◌||◌, ◌&&◌, not, ltb, leb, ◌==◌, if◌then◌else◌,
  List, [], ◌∷◌, String,
}
use fifth_kernel.Memory.{Memory, load}
use fifth_kernel.Machine.{
  Machine, Run, done, fault, Cmd, pure, and_then, ◌>>=◌, ◌>>◌, get, printf, u64,
}
use fifth_kernel.ElfFormat.{Ehdr, Shdr, Phdr, ehdr, shdr, phdr, elf_get_shent, elf_get_phent}

-- A stub of the source: both ways give `nullptr`.
unfoldable pub elf_get_str : (elf_header index : ℕ) → Cmd ℕ
elf_get_str elf_header index s =
    if (ehdr s.memory elf_header).e_shstrndx == 0 then done 0 s else done 0 s

unfoldable pub load_dynamic_elf : (elf_header : ℕ) → Cmd ℕ
load_dynamic_elf elf_header = pure 0

-- The round of the loop over the sections.
unfoldable pub print_section : (elf_header string_table i : ℕ) → Cmd (Unit {0})
print_section elf_header string_table i = do
  section_header ← elf_get_shent elf_header i
  s ← get
  if section_header == 0
      then pure tt
      else printf "Section name: %s\n"
          (u64 (string_table + (shdr s.memory section_header).sh_name) ∷ [])

-- `for (i = …; i < e_shnum; i++)` with `left` rounds to go.
unfoldable pub print_sections : (left i elf_header string_table : ℕ) → Cmd (Unit {0})
print_sections zero i elf_header string_table = pure tt
print_sections (suc left) i elf_header string_table =
    print_section elf_header string_table i >> print_sections left (i + 1) elf_header string_table

-- The switch over `p_type`, but for PT_NULL.
unfoldable pub print_type : (p_type : ℕ) → Cmd (Unit {0})
print_type p_type =
    if p_type == 1
    then printf "  LOAD          " []
    else if p_type == 2
    then printf "  DYNAMIC       " []
    else if p_type == 3
    then printf "  INTERP        " []
    else if p_type == 4
    then printf "  NOTE          " []
    else if p_type == 5
    then printf "  SHLIB         " []
    else if p_type == 6
    then printf "  PHDR          " []
    else if p_type == 7
    then printf "  TLS           " []
    else if p_type == 0x70000003
    then printf "  RISCV_ATTRIBUT" []
    else printf "  unknown (%#zx) " (p_type ∷ [])

-- A letter of `flags`, or a blank.
abbrev flag_char : (flags bit letter : ℕ) → ℕ
flag_char flags bit letter = if flags / bit % 2 == 1 then letter else 0x20

-- `lowest_virt_addr` and `load_segments`
pub record Segments : Type 0 where
  pub lowest_virt_addr : ℕ
  pub load_segments : ℕ

-- What the case PT_LOAD does to the two counts.
abbrev pub count_segment : Phdr → Segments → Segments
count_segment h c =
    if h.p_type == 1
    then record {
      lowest_virt_addr = if ltb h.p_vaddr c.lowest_virt_addr then h.p_vaddr else c.lowest_virt_addr;
      load_segments = u64 (c.load_segments + 1);
    }
    else c

-- The report of one program header; `flags` is recorded by its three characters.
unfoldable pub print_header : Phdr → Cmd (Unit {0})
print_header h =
    if h.p_type == 0
    then printf "  NULL\n" []
    else (print_type h.p_type
        >> printf " 0x%06zx 0x%016zx 0x%016zx 0x%06zx 0x%06zx %s 0x%zx\n" (
            h.p_offset
            ∷ h.p_vaddr
            ∷ h.p_paddr
            ∷ h.p_filesz
            ∷ h.p_memsz
            ∷ flag_char h.p_flags 4 0x52
            ∷ flag_char h.p_flags 2 0x57
            ∷ flag_char h.p_flags 1 0x45
            ∷ h.p_align
            ∷ []))

-- The round of the loop over the program headers.
unfoldable pub read_segment : (elf_header i : ℕ) → Segments → Cmd Segments
read_segment elf_header i c = do
  program_header ← elf_get_phent elf_header i
  s ← get
  let h = phdr s.memory program_header
  if program_header == 0 then pure c else (print_header h >> pure (count_segment h c))

unfoldable pub read_segments : (left i elf_header : ℕ) → Segments → Cmd Segments
read_segments zero i elf_header c = pure c
read_segments (suc left) i elf_header c =
    read_segment elf_header i c >>= λ c'. read_segments left (i + 1) elf_header c'

abbrev pub no_segments : Segments
no_segments = record { lowest_virt_addr = 2 ^ 64 - 1; load_segments = 0 }

-- `load_exec_elf` behind the test of the string section, up to the loop over the sections.
unfoldable pub print_elf_header : Ehdr → (string_table sh_size : ℕ) → Cmd (Unit {0})
print_elf_header h string_table sh_size = do
  printf "elf_header->e_shstrndx: %d\n" (h.e_shstrndx ∷ [])
  printf "elf_header->e_shoff: %#zx\n" (h.e_shoff ∷ [])
  printf "elf_header->e_shentsize: %x\n" (h.e_shentsize ∷ [])
  printf "elf_header->e_ehsize: %x\n" (h.e_ehsize ∷ [])
  printf "string_table addr: %p\n" (string_table ∷ [])
  printf "string_table end: %p\n" (u64 (string_table + sh_size) ∷ [])

unfoldable pub print_headings : Cmd (Unit {0})
print_headings = do
  printf "Program headers:\n" []
  printf
      "  Type           Offset   VirtAddr           PhysAddr           FileSiz  MemSiz   Flg Align\n"
      []

-- The loops of `load_exec_elf`.
unfoldable pub print_tables : Ehdr → (elf_header string_table : ℕ) → Cmd Segments
print_tables h elf_header string_table = do
  print_sections h.e_shnum 0 elf_header string_table
  print_headings
  read_segments h.e_phnum 0 elf_header no_segments

-- The two counts are not read behind the loop.
unfoldable pub load_exec_elf : (elf_header : ℕ) → Cmd ℕ
load_exec_elf elf_header s =
    let h = ehdr s.memory elf_header in
    (do
      string_section ← elf_get_shent elf_header h.e_shstrndx
      s1 ← get
      let section = shdr s1.memory string_section
      let string_table = u64 (elf_header + section.sh_offset)
      if string_section == 0
          then pure 0
          else (print_elf_header h string_table section.sh_size
              >> (if h.e_shstrndx == 0
                  then printf "NO STRINGS\n" [] >> pure 0
                  else (print_tables h elf_header string_table >>= λ _. pure 0))))
      s

-- ELFMAG0 to ELFMAG3.
abbrev pub has_magic : Ehdr → Bool
has_magic h =
    h.e_ident 0 == 0x7f && h.e_ident 1 == 0x45 && h.e_ident 2 == 0x4C && h.e_ident 3 == 0x46

abbrev pub refuse : String → Cmd ℕ
refuse message = printf message [] >> pure 0

-- ELFCLASS64, ELFDATA2LSB, EV_CURRENT, EM_RISCV, ET_EXEC and ET_DYN by their numbers; the test of
-- ET_DYN is an inequality.
unfoldable pub load_elf : (elf_header : ℕ) → Cmd ℕ
load_elf elf_header s =
    let h = ehdr s.memory elf_header in
    (if not (has_magic h)
        then refuse "ELF Magic Mismatch\n"
        else if not (h.e_ident 4 == 2)
        then refuse "Elf not 64-bit executable\n"
        else if not (h.e_ident 5 == 1)
        then refuse "Elf incompatible endianness\n"
        else if not (h.e_ident 6 == 1)
        then refuse "ELF version mismatch\n"
        else if not (h.e_machine == 243)
        then refuse "ELF is not for RISC-V\n"
        else if h.e_type == 2
        then printf "ELF is EXEC\n" [] >> load_exec_elf elf_header
        else if not (h.e_type == 3)
        then printf "ELF is DYNAMIC\n" [] >> load_dynamic_elf elf_header
        else refuse "ELF file is not an executable\n")
      s
