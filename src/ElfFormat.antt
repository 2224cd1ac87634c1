-- ===== src/ElfFormat.antt =====
-- src/elf.h, and the accessors of src/elf.c: the headers of an ELF file in memory. A pointer is its
-- address, 0 for `nullptr`.
use fifth_kernel.Base.{ℕ, ◌+◌, ◌*◌, ◌^◌, ◌||◌, ltb, leb, ◌==◌, if◌then◌else◌}
use fifth_kernel.Memory.{Memory, load}
use fifth_kernel.Machine.{done, fault, Cmd, pure, u64}

-- `Elf64_Ehdr`; `e_ident` as its bytes by index.
pub record Ehdr : Type 0 where
  pub e_ident : ℕ → ℕ
  pub e_type : ℕ
  pub e_machine : ℕ
  pub e_version : ℕ
  pub e_entry : ℕ
  pub e_phoff : ℕ
  pub e_shoff : ℕ
  pub e_flags : ℕ
  pub e_ehsize : ℕ
  pub e_phentsize : ℕ
  pub e_phnum : ℕ
  pub e_shentsize : ℕ
  pub e_shnum : ℕ
  pub e_shstrndx : ℕ

-- `Elf64_Shdr`
pub record Shdr : Type 0 where
  pub sh_name : ℕ
  pub sh_type : ℕ
  pub sh_flags : ℕ
  pub sh_addr : ℕ
  pub sh_offset : ℕ
  pub sh_size : ℕ
  pub sh_link : ℕ
  pub sh_info : ℕ
  pub sh_addralign : ℕ
  pub sh_entsize : ℕ

-- `Elf64_Phdr`
pub record Phdr : Type 0 where
  pub p_type : ℕ
  pub p_flags : ℕ
  pub p_offset : ℕ
  pub p_vaddr : ℕ
  pub p_paddr : ℕ
  pub p_filesz : ℕ
  pub p_memsz : ℕ
  pub p_align : ℕ

-- The fields at their offsets, little endian.
abbrev pub ehdr : Memory → ℕ → Ehdr
ehdr m p = record {
  e_ident = λ i. m (p + i);
  e_type = load 2 m (p + 16);
  e_machine = load 2 m (p + 18);
  e_version = load 4 m (p + 20);
  e_entry = load 8 m (p + 24);
  e_phoff = load 8 m (p + 32);
  e_shoff = load 8 m (p + 40);
  e_flags = load 4 m (p + 48);
  e_ehsize = load 2 m (p + 52);
  e_phentsize = load 2 m (p + 54);
  e_phnum = load 2 m (p + 56);
  e_shentsize = load 2 m (p + 58);
  e_shnum = load 2 m (p + 60);
  e_shstrndx = load 2 m (p + 62);
}

abbrev pub shdr : Memory → ℕ → Shdr
shdr m p = record {
  sh_name = load 4 m p;
  sh_type = load 4 m (p + 4);
  sh_flags = load 8 m (p + 8);
  sh_addr = load 8 m (p + 16);
  sh_offset = load 8 m (p + 24);
  sh_size = load 8 m (p + 32);
  sh_link = load 4 m (p + 40);
  sh_info = load 4 m (p + 44);
  sh_addralign = load 8 m (p + 48);
  sh_entsize = load 8 m (p + 56);
}

abbrev pub phdr : Memory → ℕ → Phdr
phdr m p = record {
  p_type = load 4 m p;
  p_flags = load 4 m (p + 4);
  p_offset = load 8 m (p + 8);
  p_vaddr = load 8 m (p + 16);
  p_paddr = load 8 m (p + 24);
  p_filesz = load 8 m (p + 32);
  p_memsz = load 8 m (p + 40);
  p_align = load 8 m (p + 48);
}

-- The entry of a table, whose offset `index * entsize` is a product of `int`s.
unfoldable pub table_entry : (elf_header offset index entsize : ℕ) → Cmd ℕ
table_entry elf_header offset index entsize =
    if ltb (index * entsize) (2 ^ 31)
    then pure (u64 (elf_header + offset + index * entsize))
    else λ s. fault

unfoldable pub elf_get_shent : (elf_header index : ℕ) → Cmd ℕ
elf_get_shent elf_header index s =
    let h = ehdr s.memory elf_header in
    if h.e_shoff == 0 || leb h.e_shnum index
    then done 0 s
    else table_entry elf_header h.e_shoff index h.e_shentsize s

unfoldable pub elf_get_phent : (elf_header index : ℕ) → Cmd ℕ
elf_get_phent elf_header index s =
    let h = ehdr s.memory elf_header in
    if h.e_phoff == 0 || leb h.e_phnum index
    then done 0 s
    else table_entry elf_header h.e_phoff index h.e_phentsize s
