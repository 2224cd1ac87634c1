-- ===== src/Lib.antt =====
-- A verification library for fifth-kernel, a small RISC-V kernel in C.
--
-- The program. The boot code enters `kernel_start` (src/main.c) in machine mode, which reports the
-- extensions, delegates traps and leaves for `kernel_init` in supervisor mode (src/priv.c,
-- src/csr.c). That reads the device tree (src/fdt.c), marks the kernel's frames in a bitmap
-- (src/frame.c), builds the page table (src/page.c) and sets up traps (src/trap.c); after the jump
-- to the higher half `kernel_main` unmaps the lower half and reports an ELF file (src/elf.c). The
-- parts share globals: the device information, the bitmap, the offset at which physical memory is
-- seen, and the control registers.
--
-- The model. `Machine` is one record of these globals, of memory as a byte at each address, of the
-- control registers and of the console, which is a list of the calls of `printf` with format and
-- arguments. A function of the source that changes them is a command, from a machine to a `Run`:
-- done with a result and a machine, a fault (what C leaves undefined, such as an index out of
-- range), a loop without end, or fuel that ran out. `Returns` states total correctness of a run.
-- Numbers are natural numbers with the wrap-around of `size_t` written out. In the program the
-- globals lie in the kernel's image; here they are fields of the record beside memory, so that what
-- is said of the image's bytes is said of the bytes beside the globals.
--
-- The files.
--   Base, Base/*       shared names, Boolean tests, lists, bit operations by parts
--   Memory, Memory/*   loads and stores of little-endian words
--   Mem, Mem/*         src/mem.c
--   CString, CString/* src/string.c, and `strlen` of src/fdt.c
--   Frame, Frame/*     src/frame.c: `Frames` is the array; Bitmap has the single operations,
--                      FindByte and Search the search for a free frame, Range the ranges, Free the
--                      count of free frames, Lowest what is left free when the lowest frames are
--                      taken
--   Machine, Machine/* the state and the commands
--   Page               src/page.c but for the boot loops; Page/Entry has `pte_rv39_t`, Page/MapType
--                      and Page/Err the numbers of src/page.h, Page/Allocate `allocate_a_page`,
--                      Page/Boot the loops of `enable_paging` and `unmap_lower_half_kernel`
--   Page/Walk          the walk that a processor makes, and the address space of a root table
--   Page/Tree          the invariant: a ghost function gives each table's level and part of the
--                      address space
--   Page/Update, Page/Rewrite, Page/Link, Page/NewTable, Page/Grow
--                      what one store, and one new table, do to the walks
--   Page/Footprint, Page/Spares, Page/Beside
--                      the bytes that no store reaches, outside the tables and the free frames, and
--                      stores to such bytes
--   Page/Paged, Page/Kept, Page/Level, Page/Descend, Page/Map, Page/UnmapLevel, Page/Unmap,
--   Page/RoundTrip
--                      the refinement of the abstract insertion and removal of a page
--   Page/Sequence      sequences of calls on one table
--   Page/Group, Page/Requests, Page/MapAll
--                      lists of pages to map, and how many tables they need
--   Page/BootList, Page/Fresh, Page/Fill, Page/Enable, Page/Translated, Page/Small, Page/Maps,
--   Page/BootSpace, Page/Asked
--                      `enable_paging`: its loops as one list, its new table, the two together,
--                      where the kernel and memory are mapped, and the address space that it
--                      builds, described by addresses
--   Page/Through, Page/Shifted, Page/Handover
--                      memory as it is seen through the table that `satp` names, where the tables
--                      lie at `ident_map_addr`, and that `enable_paging` leaves a table to go on
--                      with
--   Page/FirstPage, Page/AllocatePage
--                      `allocate_a_page`: its search for a page, and the whole
--   Page/LowerHalf     `unmap_lower_half_kernel`
--   Page/Gigapage, Page/Megapage, Page/MegapageUnmap
--                      both functions on gigapages and on megapages
--   Trap, Trap/*       src/trap.h, src/trap.c and src/asm/mtimer.S; Trap/Saved has the frame on the
--                      trap stack, Trap/Sequence code that is interrupted again and again
--   ElfFormat          src/elf.h, and the accessors of src/elf.c
--   Elf, Elf/*         the rest of src/elf.c
--   Privilege, Privilege/*
--                      src/csr.c and src/priv.c
--   Fdt, Fdt/*         src/fdt.h and src/fdt.c: Prop has the properties of a node, Parse the loop,
--                      Locations the table of devices, Recorded what is entered there, Facts
--                      what a tree tells; Learns, Value, Property, Walk and Info follow the walk
--                      over a well-formed tree to its end
--   Main, Main/*       src/main.c, and `init_frames` on the kernel's state; Placed has the stages
--                      of `kernel_init`, Init where it jumps to, Preserved what it leaves alone,
--                      Handover the table for the code in the higher half, Tree all of it from a
--                      device tree; Rodata has the relocation, Kernel `kernel_main`, Upper what
--                      `setup_post_relocation` of src/asm/post_relocation.S calls, Landing what it
--                      finds, and Arrival the boot as a whole
--   Tests, Tests/*     concrete cases
--
-- Fuel and bounds. `strcmp` and `strlen` run on fuel, and more of it than the string is long is
-- enough. `modify_rodata_ptrs` has one round for each word of its section and one more, which is
-- enough. The walk over the device tree runs on fuel too, for a tree need not end; one unit for
-- each token and each character of the longest name is enough for a tree that does. All other
-- loops count the rounds that their bounds leave. The search for a free frame is bounded by the
-- array, behind which it has no defined meaning.
--
-- Parameters. What the compiled `trap_handler` leaves in the registers is a function of them that
-- keeps `sp`. The addresses of the linker script are arguments. `sprintf`, the addresses of string
-- literals, whose bytes are not laid down, and the words before the tables of cells, which
-- `end_node` reads after the root has ended, stand in one record.
--
-- Not modelled. src/printf.c, a copy of a library; the assembly but for the timer's registers and
-- for `sscratch` and the calls of `setup_post_relocation`; a second address of the same byte, once
-- paging is on (a store through one is not seen through another, and the code reaches the page
-- tables by `ident_map_addr` alone, the kernel's image by the higher half alone); the stack below
-- the frame that the compiled `trap_handler` uses; the loop without end of `kernel_main` but for
-- one round. A write of a control register is read back as written, and an access of an address
-- that is not mapped does not trap.
pub mod Base
pub mod Memory
pub mod Mem
pub mod CString
pub mod Frame
pub mod Machine
pub mod Page
pub mod Trap
pub mod ElfFormat
pub mod Elf
pub mod Privilege
pub mod Fdt
pub mod Main
pub mod Tests
