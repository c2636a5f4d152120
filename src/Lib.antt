-- ===== src/Lib.antt =====
-- marrowOS: a verification of the kernel's core, translated from its C sources.
--
-- The kernel keeps a block heap, page directories, strings and paths, open files, processes with the
-- memory they ask for, a task list, a keyboard ring for each process, a text terminal, a table of segment
-- descriptors and a byte stream over the disk. The heap is at the bottom: the path parser, the file
-- layer, FAT16 and the processes take their memory from it; a process also maps what it gets into its page
-- directory, and the file layer parses paths before it asks a file system, FAT16 over the stream. An
-- interrupt saves the registers of a task and calls a handler, which may switch to another task, load or
-- end a process or serve a system call.
--
-- Parts, files and sources (paths from the root of the repository):
--   Base, Base/*: shared names, list functions, integers, bit operations at variables, and a monad
--     for code on a state that may fault.
--   Heap, Heap/*: src/memory/heap/heap.c and heap.h. Functions have the names of the source. A loop is
--     a function of its own (scan_blocks, mark_taken, mark_free) that counts the rounds to go.
--   Kheap, Kheap/*: src/memory/heap/kheap.c. Kheap/Room shows that the kernel heap is an Allocator,
--     Kheap/Pages that it has room for many pages, Kheap/Low that it is one below 2 ^ 31.
--   Allocator: what the path parser, the file layer and FAT16 ask of the heap: operations and laws.
--   Memory, Memory/*: src/memory/memory.c over a memory of bytes.
--   Paging, Paging/*: src/memory/paging/paging.c over the same memory; entries are four bytes.
--     Chunks has the directories of 4 GB, which take their tables from the kernel heap.
--   CString, CString/*: src/string/string.c. A string is the list of its bytes, read as 0 behind them.
--   PathParser, PathParser/*: src/fs/pparser.c.
--   File, File/*: src/fs/file.c. A file system is the record of functions that the source calls
--     through pointers.
--   Process, Process/*: src/task/process.c: the allocations of a process, the table of processes, the
--     arguments and the mapping of a program.
--   Task, Task/*: the task list of src/task/task.c.
--   Keyboard, Keyboard/*: src/keyboard/keyboard.c and classic.c.
--   Terminal, Terminal/*: the terminal of src/kernel.c.
--   Gdt, Gdt/*: src/gdt/gdt.c, with the table of src/kernel.c.
--   Streamer, Streamer/*: src/disk/streamer.c and the calls of src/disk/disk.c under it.
--   Fat16, Fat16/*: src/fs/fat/fat16.c. Chain has the walk along the allocation table and reads, Names
--     and Directory the items of a directory, Items the search and the items that are made of it,
--     Files the operations on descriptors and Mount fat16_resolve and the table of the operations.
--   Elf, Elf/*: src/loader/formats/elf.h, elf.c and elfloader.c, over memory and the file layer.
--   Stdio, Stdio/*: programs/stdlib/src/stdio.c and itoa of programs/stdlib/src/stdlib.c.
--   Command, Command/*: strtok of programs/stdlib/src/string.c, and of programs/stdlib/src/marrowos.c the
--     parsing of a command and the reading of a line.
--   Idt, Idt/*: src/idt/idt.c and the table of commands in src/isr80h/isr80h.c: registration.
--   System, System/*: the machine, which joins the parts: Tasks and Copies are the rest of
--     src/task/task.c, Loading and Processes that of src/task/process.c, Calls the commands of
--     src/isr80h, Store the heap as the file layer takes it, Interrupts the handlers of src/idt/idt.c,
--     and Boot kernel_main of src/kernel.c.
--   Tests, Tests/*: the theorems at concrete states.
--
-- Conventions: numbers are natural numbers and a machine word keeps its wrap-around written out; `none`
-- is a fault, an access that C leaves undefined or a panic; an error code is a value. A loop is
-- structural in the rounds to go, or on fuel: `more_parts` gets one more than the length of the path, of
-- which each round but the last consumes a byte, and `read_rounds` one more than the bytes asked for,
-- of which each call but the last reads one; `read_chain` of FAT16 is alike. `count_items` gets 2 ^ 26 + 1
-- rounds, of which each moves a position below 2 ^ 31 on by 32.
--
-- The printing loops of Stdio count the bytes that are left in their buffer, which are enough. The further
-- arguments of a command get 1025 rounds: the line has 1024 bytes, of which a round consumes one. The
-- list of arguments that a program passes in is read for as many rounds as the theorem or the caller
-- gives; one that is longer is `none`.
--
-- Not modelled: assembly (boot, port access, the loads of descriptor tables and of control registers, the
-- entry points of interrupts; `task_return` gives the registers that it would load), the task state
-- segment, the loop of panic, fat16_init, the user programs, and of their library what
-- repeats the kernel's strings and memory. The
-- write to a port that ends an interrupt changes no state of the model. The ports of the disk are the
-- `Disk` record: what a sector holds; the drive is taken to answer each time, so the loop that polls it
-- ends. A write of the terminal behind the 32 KiB of video
-- memory, which the code does not prevent, is a fault.
pub mod Base
pub mod Heap
pub mod Memory
pub mod Kheap
pub mod Paging
pub mod CString
pub mod Allocator
pub mod PathParser
pub mod Keyboard
pub mod Terminal
pub mod Gdt
pub mod Streamer
pub mod Process
pub mod File
pub mod Task
pub mod Fat16
pub mod Elf
pub mod Stdio
pub mod Command
pub mod Idt
pub mod System
pub mod Tests
