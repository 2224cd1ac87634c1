-- ===== src/Tests/Boot.antt =====
-- src/elf.c, src/priv.c and src/main.c: an ELF file of one loadable segment, a way out of machine
-- mode, and three words of read-only data.
use fifth_kernel.Base.{ℕ, ◌+◌, ◌/◌, ◌%◌, ◌^◌, ◌≡◌, refl, arith, List, [], ◌∷◌, ◌==◌, if◌then◌else◌}
use fifth_kernel.Memory.{Memory, IsBytes, load, store}
use fifth_kernel.Machine.{Machine, done}
use fifth_kernel.Machine.Returns.{Returns}
use fifth_kernel.Machine.Prints.{OnlyPrints, printed}
use fifth_kernel.ElfFormat.{ehdr}
use fifth_kernel.Elf.{read_segments, no_segments, load_elf}
use fifth_kernel.Elf.Headers.{IsSegments, read_segments_lem}
use fifth_kernel.Elf.Entries.{IsSmall}
use fifth_kernel.Elf.Load.{load_elf-message, message_of, first_failed}
use fifth_kernel.Privilege.{set_priv_m}
use fifth_kernel.Privilege.Mpp.{IsLeft, set_priv_m-IsLeft}
use fifth_kernel.Main.{modify_rodata_ptrs, kernel_start}
use fifth_kernel.Main.Boot.{kernel_start_lem}
use fifth_kernel.Main.Rodata.{Relocates, modify_rodata_ptrs-Relocates}
use fifth_kernel.Tests.Values.{ram, no_csr, zeros, machine, paged}

-- The file at 0x1000: e_ident, e_type, e_machine, e_phoff, e_phentsize, e_phnum, then one program
-- header of type PT_LOAD with its p_vaddr.
abbrev file : Memory
file a = at (
    (0x1000, 0x7F)
    ∷ (0x1001, 0x45)
    ∷ (0x1002, 0x4C)
    ∷ (0x1003, 0x46)
    ∷ (0x1004, 2)
    ∷ (0x1005, 1)
    ∷ (0x1006, 1)
    ∷ (0x1010, 2)
    ∷ (0x1012, 243)
    ∷ (0x1020, 64)
    ∷ (0x1036, 56)
    ∷ (0x1038, 1)
    ∷ (0x1040, 1)
    ∷ (0x1051, 0x10)
    ∷ [])
  where
    at : List (ℕ × ℕ) → ℕ
    at [] = 0
    at ((b, v) ∷ rest) = if a == b then v else at rest

file-IsBytes : IsBytes file
file-IsBytes a = ground arith

-- `file`, and a state in which it is loaded.
abbrev with_file : Machine
with_file = machine no_csr file

file-IsSmall : IsSmall (ehdr file 0x1000)
unfolding load
file-IsSmall = record { sections = omega arith; segments = omega arith }

zeros-IsSmall : IsSmall (ehdr zeros 0x1000)
unfolding load
zeros-IsSmall = record { sections = omega arith; segments = omega arith }

read_segments_lem_example :
    Returns
      (λ c s'. IsSegments file 0x1000 (ehdr file 0x1000).e_phnum c × OnlyPrints with_file s')
      (read_segments (ehdr file 0x1000).e_phnum 0 0x1000 no_segments with_file)
read_segments_lem_example = read_segments_lem 0x1000 with_file file-IsBytes file-IsSmall

-- A file of type ET_DYN.
abbrev with_library : Machine
with_library = machine no_csr (λ a. if a == 0x1010 then 3 else file a)

load_elf-message_example :
    load_elf 0x1000 with_library
    ≡ done 0 (printed (message_of with_library.memory 0x1000) [] with_library)
unfolding load
load_elf-message_example = load_elf-message 0x1000 with_library refl

-- The message is that of a file that is none.
message_test : message_of with_library.memory 0x1000 ≡ "ELF file is not an executable\n"
unfolding load first_failed
message_test = refl

set_priv_m-IsLeft_example :
    Returns (λ j s'. (j.pc ≡ ram) × (j.a0 ≡ 0) × IsLeft 1 paged s') (set_priv_m 1 ram 0 paged)
set_priv_m-IsLeft_example = set_priv_m-IsLeft 1 ram 0 paged (omega arith)

kernel_start_lem_example :
    Returns
      (λ j s'.
        (j.pc ≡ ram)
        × (j.a0 ≡ 0)
        × (s'.csr.mstatus / 2 ^ 11 % 4 ≡ 1)
        × (s'.csr.satp ≡ 0)
        × (s'.csr.mideleg ≡ 0xFFFF)
        × (s'.csr.medeleg ≡ 0xFFFF)
        × (s'.memory ≡ zeros))
      (kernel_start ram 0 paged)
kernel_start_lem_example = kernel_start_lem ram 0 paged (omega arith)

-- The first two words point into the kernel's memory.
abbrev words : Memory
words = store 8 (store 8 (store 8 zeros 0x1000 (ram + 8)) 0x1008 (ram + 16)) 0x1010 7

abbrev with_words : Machine
with_words = machine no_csr words

modify_rodata_ptrs-Relocates_example :
    Returns (λ _ s'. Relocates 0x1000 3 with_words s') (modify_rodata_ptrs 0x1000 0x1018 with_words)
modify_rodata_ptrs-Relocates_example =
    modify_rodata_ptrs-Relocates 0x1000 3 with_words (omega arith)
