-- ===== src/Lib.antt =====
-- The verification library of enki-os, a small 32-bit operating system for the i386: models of its
-- kernel and of the part of its C library that the kernel links, and theorems about them.
--
-- The parts, from the bottom up, and the files that model them:
--   Base       numbers, lists, the byte memory and its 32-bit words, and the bit masks. C pointers are
--              numbers; an object never wraps round the end of the address space. Signed results, such
--              as the negated error codes, are the integers of Base/Int.
--   Status     kernel/include/kernel/status.h and config.h.
--   Libc       libc/string/string.c on the byte memory, and itoa of libc/stdlib/stdlib.c. A function that
--              scans a string takes fuel that bounds its rounds; fuel above the length of the strings is
--              enough.
--   Heap       kernel/memory/heap.c: first-fit allocation of 4096-byte blocks, with one byte of the
--              block table for each (Find, Mark, Alloc, Table, Free, Wrap, Create).
--   Kheap      kernel/memory/kheap.c: the kernel's own heap, of 25600 blocks (Zeroed, Page, Back).
--   Paging     kernel/memory/paging.c: page directories, mapping and translation. Which directory the
--              processor has loaded (paging_switch, paging.asm) is not modelled.
--   Disk       kernel/disk/disk_stream.c and disk.c: a stream of bytes over whole sectors. The transfer
--              over the ports of the hard disk is a parameter; the hypothesis `Serves` says that it
--              delivers the bytes of the sectors that it is asked for. Fuel above the count of bytes is
--              enough for a read. Positions and counts are C ints, kept as
--              32-bit words; a read has no result where C leaves it open.
--   Path       kernel/fs/path.c: "0:/dir/file" to a drive and parts, on lists of characters without the
--              NUL at their end. Fuel above the path's length is enough.
--   File       kernel/fs/file.c: the table of file descriptors (Descriptors), and the calls on files by a
--              record of functions, the file system of the disk (Calls, Routing), with
--              disk_search_and_init of kernel/disk/disk.c. A slot of the table holds the descriptor's
--              fields beside the address of its block, which Kheap allocates and frees. Fuel above the
--              path's length is enough for fopen.
--   Fat16      kernel/fs/fat16.c: the set-up of a disk (Resolve), the chains of clusters, the
--              directories and the reading of files, by the stream of Disk. Fuel above the number of
--              further clusters is enough for a read. Directory and Lookup are the directories, the
--              search of a path (Missing), and opening and closing; their structures are in the byte memory.
--              Fuel above the number of entries is enough for a directory.
--   Elf        kernel/elf/elf_loader.c: the checks of a header, the range of the segments (Range), and a
--              file that is loaded by File's calls (Load, Held).
--   Process    kernel/task/process.c: the mapping of a process's memory by Paging (Mapping), the slots, and
--              the memory that a process allocates (Allocations, Owned, Null), and a process from its file
--              to its end (Life, Loaded). The shells that are started while a process ends are bounded by a
--              depth.
--   Task       kernel/task/task.c: the list of tasks in a store of their own (Links, Growth, Removal), the
--              round of the timer's switches (Schedule, Rounds), the task behind one that leaves (Leaving),
--              what is read of a task's memory (User), and interrupt_handler and idt_clock of
--              kernel/kernel/idt.c (Interrupts).
--   Syscall    kernel/kernel/syscall.c and idt.c: the tables of calls and callbacks (Register, Dispatch), and
--              the nine calls on the state of the whole kernel (Calls), and the end of a process by exit or
--              by an exception (Exceptions).
--   Keyboard   kernel/drivers/keyboard: the ring buffer of a process and the PS/2 scan codes.
--   Tty        kernel/drivers/tty/tty.c and vga.h: the text screen and its cursor.
--   Gdt        kernel/kernel/gdt.c: the segment descriptors.
--   Idt        kernel/kernel/idt.c: idt_init, the table of vectors and callbacks (Handlers).
--   Kernel     kernel/kernel/kernel.c: kernel_main, the set-up of the kernel from its parts (Segments,
--              Booted) and the first process.
--   Shell      programs/shell: the shell on the user library (Echo).
--   Enki       libc/enki/enki.c, strtok of libc/string/string.c and printf of libc/stdio/stdio.c: the line
--              that a program reads (Readline), and the parsing of a command into the words that strtok
--              finds (Words, Argument, Command). Fuel above the number of keys is enough for a line, fuel
--              above the length of the text for a command.
-- Each part has a module of its own that holds the definitions, with the functions' names, child
-- modules for what is proved, and a child `Tests` that runs the definitions and applies the theorems.
--
-- How the parts interact: Kheap calls Heap and Libc's memset; Paging allocates its tables by Kheap and
-- frees them by it; Process maps by Paging and allocates by Kheap; Task builds its page directories by
-- Paging and allocates by Kheap; Elf reads its files by File's calls; Fat16 reads by Disk's stream;
-- Path tests characters by Libc; the interrupt of Keyboard pushes into the buffer that the process
-- reads. State is passed from call to call: the memory, the screen, the key buffer and the stream are
-- arguments and results. Kernel composes the set-up of Tty, Gdt, Kheap, File, Idt, Paging, Syscall and
-- Keyboard; Shell runs on Enki, whose calls Syscall serves. A loop is a function by recursion on the
-- rounds that are left, or on fuel.
--
-- Not modelled: the assembly files, port I/O, the processor's tables once they are loaded, and the
-- user programs but the shell. The processor's translation of a task's addresses is a
-- parameter. A null pointer that the code writes through, where an allocation is not tested, is an
-- address like any other, but in fat16_resolve and in file_new_descriptor, whose result is none then.
pub mod Base
pub mod Disk
pub mod Elf
pub mod Enki
pub mod Fat16
pub mod File
pub mod Gdt
pub mod Heap
pub mod Idt
pub mod Kernel
pub mod Keyboard
pub mod Kheap
pub mod Libc
pub mod Paging
pub mod Path
pub mod Process
pub mod Shell
pub mod Status
pub mod Syscall
pub mod Task
pub mod Tty
