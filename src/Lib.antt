-- ===== src/Lib.antt =====
-- Verification of the turnix kernel, its system call interface and the user library on top of it.
--
-- The boot loader puts the kernel into pages of the firmware and hands it a memory map, from which the frame allocator takes pages, and a
-- ramdisk, which the build tool has written and the file system reads. The boot sequence loads
-- programs from the file system through the ELF parser and gives their tasks to the scheduler. A
-- program calls the user library, which puts a system call number and arguments into registers; the
-- dispatcher turns these into a call of a handler, and the handlers act on the file system, the
-- terminal, the scheduler and the memory of the caller. The keyboard interrupt feeds the terminal,
-- the timer interrupt the scheduler. A process is made from a program by the page tables and the
-- mapper, on frames of the frame allocator.
--
-- Base: what all modules share. Base/Tests: Boolean tests; Base/Lists: lists over the native
--   numbers; Base/Panics: code that may panic, and checked arithmetic on 64 bits; Base/Text: bytes
--   and little-endian numbers; Base/Utf8: UTF-8; Base/Bits: `&` with a mask of high ones.
-- Memory: the frame allocator (kernel/src/memory.rs) and the memory map (shared/abi/src/boot.rs).
--   `loop` is the loop of `allocate_physical_frame`, on as much fuel as the map has entries, of
--   which each round takes one. Memory/Frames: one call; Memory/Allocation: successive calls;
--   Memory/FreePages: the pages that may be handed out.
-- Heap: the kernel's heap (kernel/src/memory/allocator/mod.rs, linked_list.rs, fixed_size_block.rs),
--   which the file system, the scheduler and the console allocate from. The nodes of the free lists
--   stand in the free memory; here a list of regions, and one of addresses for each block size.
--   Heap/Align, Heap/Cover: alignment, and how often an address is covered. Heap/LinkedList,
--   Heap/Allocate: the linked list allocator. Heap/Nodes, Heap/FixedBlocks, Heap/Release: the lists
--   of blocks. Heap/History, Heap/Live: any calls one after another, and what their caller relies on.
-- Loader: the boot loader's ELF loader (boot/uefi-loader/src/elf.rs), with the firmware's
--   `allocate_pages` as a parameter. A result is a value, an error, a panic, or a copy that leaves
--   the file or the pages. The two loops run once for each program header. Loader/Answers,
--   Loader/Headers: the parsers; Loader/Survey, Loader/Copies: the loops; Loader/Image,
--   Loader/Success: `load_kernel`.
-- Video: the text console (kernel/src/drivers/video/mod.rs) and its font
--   (kernel/src/drivers/video/psf.rs), on the 32-bit cells of the framebuffer, with an access
--   outside them as a result of its own. Video/Font, Video/Pixels, Video/Console: glyphs, drawing
--   and the cursor; Video/Writing, Video/Scrolling: text.
-- Repl: the command parser of the kernel shell (kernel/src/shell.rs), on code points. Repl/Words,
--   Repl/Commands: white space, words and commands.
-- Services: the service manager (userland/service-manager/src/lib.rs). Services/Statuses: its calls.
-- Tty: the terminal (kernel/src/tty/mod.rs), the keyboard buffer (kernel/src/input/mod.rs) and the
--   part of the keyboard handler behind the decoder (kernel/src/interrupts/mod.rs). Tty/Line: editing.
-- Vfs: the file system (kernel/src/vfs.rs), with `open_file` for `Vfs::open`. A `&mut self` method
--   takes the state and returns the new one with the result; read and write also take the terminal
--   behind the entry `tty`. Vfs/Lookup, Vfs/Open, Vfs/Invariant, Vfs/InvariantWrite, Vfs/History,
--   Vfs/Files: lemmas and theorems on these. Vfs/FileMap, Vfs/Unchanged, Vfs/Refinement: the file
--   system as a map from names to entries. Vfs/Terminal: the entry `tty`. Vfs/Load: the loading of a program
--   (kernel/src/boot.rs). Vfs/Ramdisk: the ramdisk reader (kernel/src/vfs.rs) and its writer
--   (tools/xtask/src/main.rs); the reader's loop runs on one round more than there are bytes, and
--   each round consumes at least 72 bytes. Vfs/RamdiskLaws, Vfs/RamdiskRoundTrip: its theorems.
-- Task: tasks and kernel stacks (kernel/src/task/mod.rs), and `set_interrupt_stack`
--   (kernel/src/gdt.rs). Task/Scheduler: the scheduler (kernel/src/task/scheduler.rs), its statics
--   as one record. Task/Scheduler/Invariant, RoundRobin, History: its theorems.
-- Elf: the ELF parser (kernel/src/elf.rs). A result is a value, an error or the panic of an index
--   out of range. Elf/Safety, Elf/ProgramHeaders, Elf/RoundTrip: its theorems.
-- Syscall: the numbers and arguments (shared/abi/src/syscall.rs). Syscall/Handler: the handlers
--   (kernel/src/syscall/handler.rs) and the dispatcher (kernel/src/syscall/mod.rs).
--   Syscall/Memory: bytes of the address space. Syscall/Library: the user library
--   (userland/libturnix/src/lib.rs); what the registers hold that a call does not set is a
--   parameter. Syscall/Library/Failures: how it reads failures.
-- Paging: page tables (kernel/src/memory/paging.rs). The entries, flags, frames and addresses of the
--   x86_64 crate and the frame allocator with its contract are the parameter `Platform`; memory is the
--   entry at each index of the table in each frame. `clone_table_level` recurs on the level.
--   Paging/Entries, Paging/Trees: entries, and the tree of tables below one; Paging/Copies,
--   Paging/Level, Paging/Descent: the copy of a tree; Paging/Halves, Paging/Spaces,
--   Paging/CopyOnWrite: address spaces; Paging/Marks, Paging/UserAccess: user access;
--   Paging/KernelFrames: the kernel's frame allocator (kernel/src/memory.rs) as that of the page tables.
--   Paging/Sample is a concrete platform.
-- Process: processes (kernel/src/process.rs), with the crate's page mapper as the parameter `Mapper`;
--   data in physical memory is a byte at each address, apart from the tables. The copy loops run on as
--   much fuel as there are bytes, of which each round writes at least one. Process/Program, Process/Fork:
--   `new_from_elf` and `fork`; Process/Mapping, Process/Regions: mapping; Process/Chunks,
--   Process/Filling, Process/Segments, Process/Loading: one segment; Process/Holding,
--   Process/Programs, Process/NewProcess: the whole program. Process/Sample is a concrete mapper.
-- Fs: the ext2 driver (kernel/src/fs/ext2.rs) and the mounts (kernel/src/fs/mod.rs), with the disk
--   driver's read_blocks as a parameter. Fs/Superblock, Fs/Mounting: its theorems.
-- Security: capabilities and the security context (kernel/src/security/mod.rs). Security/Checks: the
--   checks.
-- Shell: how the user shell prints a number (userland/shell/src/main.rs). Shell/Decimal: its theorem.
-- The modules named Tests apply theorems to concrete states.
--
-- Numbers are natural numbers, and the wrap-around, the overflow check or the checked operation of
-- the source is written out where it matters. Strings are lists of bytes, characters are code
-- points. Arithmetic is that of a build with overflow checks.
--
-- Not modelled: page faults and the loader's own page tables, the start of further processors, device
-- access and drivers other than the console, assembly, the loader's firmware calls, and the diagnostic output on the serial port other than
-- that of the write call. Outside Heap, a list or a string can always be allocated, up to the
-- capacity limit of a Vec. The heap is as `init` leaves it; the mapping of its pages
-- (kernel/src/memory/heap.rs) goes through the x86_64 crate.
pub mod Base
pub mod Memory
pub mod Heap
pub mod Loader
pub mod Video
pub mod Fs
pub mod Security
pub mod Paging
pub mod Process
pub mod Repl
pub mod Services
pub mod Tty
pub mod Vfs
pub mod Task
pub mod Elf
pub mod Syscall
pub mod Shell
