-- ===== src/Lib.antt =====
-- A verification library for the kernel: a small 32-bit system with a preemptive scheduler, system
-- calls for processes, paging, a FAT32 reader and a text screen.
--
-- An interrupt enters through a gate of the interrupt table (kernel/interrupt/idt.c), and
-- `interrupt_handler` hands it to the exceptions, to the hardware (kernel/hardware/hal.c) or to the
-- system calls (kernel/interrupt/syscall.c). The timer (kernel/hardware/pit.c) calls its listeners,
-- of which one is `schedule` (kernel/multitasking/scheduler.c); the system calls change control
-- blocks and call `schedule` too. The scheduler keeps its processes in queues (kernel/queue.c), gets
-- page directories from kernel/memory/paging.c, and that gets its pages from
-- kernel/memory/physical.c. Files (kernel/filesystem/fat32.c) are read through the disk driver
-- (kernel/hardware/pio.c). Everything prints through kernel/tty.c.
--
-- Modules and sources:
--   Prelude               the native numbers and lists, and what all modules use of the library
--   Bits                  the bits of a word; Bits.Masks: shifts, masks and unions of fields
--   Memory.Physical       kernel/memory/physical.c: `__bitmap` as a list of words, `malloc`, `free`
--   Memory.Paging         kernel/memory/paging.c: memory as a function from word addresses to words,
--                         with the page allocator's bitmap; Translate: how the processor finds a
--                         page in a directory
--   Memory.Bytes          words in a memory by bytes
--   Memory.Heap           kernel/memory/heap.c: block headers in a memory by bytes
--   Memory.Gdt            kernel/memory/gdt.c, and the entry of kernel/memory/tss.c
--   Queue                 kernel/queue.c: nodes on a heap, and the list that they implement
--   Multitasking.Process  include/kernel/multitasking/process.h and scheduler.h: control blocks by
--                         address, and the interrupt frame of include/kernel/interrupt/idt.h
--   Multitasking.Scheduler  kernel/multitasking/scheduler.c: the statics as a record; `schedule` is
--                         the composition of its parts, in the code's order; queues are their lists
--   Interrupt.Idt         kernel/interrupt/idt.c and the dispatch of kernel/hardware/hal.c
--   Interrupt.Syscall     kernel/interrupt/syscall.c: exit, kill, wait, fork, getpid and the
--                         notification of a parent; Reachable: all steps of the scheduler
--   Interrupt.Break       kernel/interrupt/syscall.c: sbrk, over Memory.Paging
--   Interrupt.Descriptors  kernel/interrupt/syscall.c: close, lseek, read, write and isatty, over the
--                         file table and the memory of the caller
--   Interrupt.System      the state that the calls share; what the scheduler asks of paging is done on
--                         the page tables
--   Interrupt.Execve      kernel/interrupt/syscall.c: execve
--   Interrupt.Dispatch    kernel/interrupt/syscall.c: `handler`
--   Multitasking.Elf      kernel/multitasking/elf.c and include/kernel/multitasking/elf.h
--   Hardware.Pit, Hardware.Pio  kernel/hardware/pit.c and pio.c; port accesses are a list
--   Filesystem.Fat32      kernel/filesystem/fat32.c: open files, path components, directory names;
--                         Volume: the structures of include/kernel/filesystem/fat32.h; Opening:
--                         locate, load_file and open
--   Tty                   kernel/tty.c: the screen as 2000 cells, and `printf`
--
-- Conventions. A pointer is an address and 0 is null. An `int` or a word is its 32-bit pattern, and
-- wrap-around is written out. `none` is what C leaves undefined: an access through null or outside an
-- array, or a missing return. Loops are structural recursion on the list that they run over, or on
-- the number of their rounds: 32 for the bits of a word, 1024 for the entries of a table, 48 for the
-- gates. Two loops of kernel/tty.c run on fuel: ten rounds are enough for the decimal digits of an
-- `int`, and eight for the hexadecimal ones (Tty.Numbers). In kernel/memory/heap.c a search has one
-- round more than the size asks for bytes, and a split as many as the block has bytes (Memory.Heap);
-- `malloc` itself can run for ever, and says so when its rounds are used up. In
-- kernel/filesystem/fat32.c `load_file` has one round more than the file has bytes, and `open` one
-- more than the path (Filesystem.Fat32.Opening). A string in memory is looked for in 2^32 bytes, the
-- whole address space. What `schedule` and `create` ask of paging
-- and of the heap is a list of calls; the block that the heap returns is an argument.
-- Each component has its own view of memory: the heap its headers by bytes, paging the words of its
-- tables and pages, a process the bytes that it addresses, the scheduler its control blocks. In C these
-- are one memory, and the system calls do not check the pointers of a process: a call whose writes leave
-- the pages of processes is not followed (`SparesKernel` in Interrupt.Dispatch.Reaches).
--
-- Not modelled: kernel/io.c and kernel/arch/x86 are processor instructions;
-- kernel/memory/virtual.c is empty; kernel/filesystem/vfs.c, kernel/hardware/pic.c and keyboard.c,
-- kernel/interrupt/exception.c and kernel/kernel.c set pointers, write fixed bytes to ports, or print.
pub mod Prelude
pub mod Bits
pub mod Memory
pub mod Queue
pub mod Multitasking
pub mod Interrupt
pub mod Hardware
pub mod Filesystem
pub mod Tty
