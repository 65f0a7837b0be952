-- ===== src/Lib.antt =====
-- Models and proofs of FuseeOS, a small x86-64 operating system with its boot loader and tools.
--
-- Every operation is a function of the same name as in the source; a loop or a branch that stands
-- inside a function of the source has a name of its own. Memory is a function from addresses to
-- bytes, or, where a component reads structures, a record for each of them.
--
-- * Base holds the helpers: Boolean tests, machine words with their wrap-around, bits, bytes, lists
--   and stores.
-- * Libc models the string functions of src/libc/string and src/libc/strings.
-- * Phys models the physical page allocator, src/kernel/mem/alloc_page.c: a block is a list of
--   bitmaps by order. Phys/Init is its start from the memory map.
-- * Heap models src/kernel/mem/kmalloc.c and src/kernel/mem/alloc_io.c. It takes the rounding to
--   pages from Phys, and keeps its calls of the page tables as a list.
-- * Paging models src/kernel/mem/mmap.c: the iterator over the page tables as a state machine, and
--   mapping, unmapping and protection. It allocates and frees with Phys and takes addresses from
--   Heap. The tables are a function of their address and the index. Paging/Physical models
--   src/kernel/arch/x86/mem.c, which takes its tables from Phys.
-- * Proc models src/kernel/proc.c, but for the loading of programs, and src/kernel/common/array.c
--   and array.h, on which the run queues and the list of free processes stand.
-- * Arch models src/kernel/arch/x86: gdt.c, interrupts.c, pic.c, timer.c, syscall.c. A descriptor is
--   the bytes that the processor reads, and a write to a port an element of a list.
-- * Print models src/libboot/print.c and returns the bytes printed; Video models src/libboot/video,
--   the font table being a parameter.
-- * Boot models memory.c, alloc.c and vbe.c of src/boot/bootloader, with the answers of the BIOS as
--   parameters. Boot/Tables has the page tables of the loader, with the entries of Paging.
-- * Initram models tools/mkinitram.c, src/libboot/initram.c and include/fusee/initram.h: the tool that
--   writes the ramdisk and the lookup in it. Spec models tools/spec_parser.c, whose entries that tool
--   adds.
-- * Volume models tools/mkvolume.c and include/fusee/mfs.h: a volume is a memory of bytes, where the
--   inodes and sizes are numbers of eight bytes. Mfs models mfs.c and disk.c of src/boot/bootloader,
--   which read such a volume from the disk; the BIOS is an interface. It takes the format from Volume,
--   and its tests put a volume on a disk.
-- * Image models tools/mkimage.c over the bytes of a file and the position in it.
--
-- Unsigned integers are natural numbers cut at their width, and `int` counters stand for themselves
-- where they are small. Loops over data are recursion on the rounds left, or on fuel where the code
-- tests something else. The fuel is an argument, and the theorems say how much is enough: five
-- rounds for a range within 512 pages (Paging), one more than the regions (Boot) and than the bytes
-- that are written (Volume), one for each line and a few more (Spec), one for each block of the heap
-- (Heap). Where the source writes into an array of a fixed size without a
-- test, the model has no result behind its end, or the theorem asks that the end is not passed.
--
-- Not modelled: src/kernel/mem/mem.c and src/kernel/thread.c, the loading of programs (load_elf of
-- src/kernel/proc.c, src/boot/bootloader/elf.c) and the order of the calls in kmain; assembly, the
-- flushes of the processor's caches and user programs, which have no state that the models read.
pub mod Base
pub mod Libc
pub mod Phys
pub mod Heap
pub mod Print
pub mod Video
pub mod Arch
pub mod Proc
pub mod Initram
pub mod Spec
pub mod Image
pub mod Boot
pub mod Paging
pub mod Volume
pub mod Mfs
