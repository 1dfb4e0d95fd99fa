-- ===== src/Lib.antt =====
-- The operating system projects of this repository, modelled as far as their logic goes: the Pintos
-- kernel's virtual memory, program loader, system calls on files, scheduler and alarm clock.
--
-- Base holds what the modules share: tests and lists over the native numbers, and Outcome, the way a
-- kernel function ends. A function returns, or the kernel panics (ASSERT, PANIC), or it is stuck:
-- undefined behaviour, or a loop whose fuel ran out. Platform holds the page size, the base of kernel
-- memory and the address macros.
--
-- A thread, a page, a pointer is a number; a 32-bit word is a number with its wrap-around written
-- out; a lock is the answer to "does the current thread hold it?", so that acquiring it asserts that
-- it is not held and releasing it that it is. Another thread may run while a lock is waited for; that
-- is outside these models, which follow one thread through one function. What the code calls outside
-- this repository (block device, bitmap, page allocator, page directories, files, console) is a
-- record of operations that the definitions take as an argument, and its documented behaviour a record
-- of laws that the theorems take as a hypothesis.
--
-- A list of the kernel's list library is a list, in its order; the hash table of a process is a map from
-- page addresses to entries; list_insert_ordered, whose order matters, is an argument.
--
-- Elf: Project 3/userprog/process.c, the ELF structures, validate_segment and the arithmetic of
--   load's PT_LOAD case (segment_of). Elf/Validate and Elf/Arithmetic hold its theorems.
-- Loader: Project 3/userprog/process.c, load_segment (its loop is fill_pages) and load (its parts,
--   from the inside out: load_phdr, load_phdrs, load_ehdr, load_file, load_mapped). setup_stack,
--   which Stack models by itself, is one of the operations that load takes as an argument, with an
--   outcome of its own. The fuel of load_segment is the number of pages plus one. Loader/Pages and Loader/Total hold its theorems.
-- Swap: Project 3/vm/swap.c, start_swap, swap_in and swap_out. The loops over the sectors of a page
--   are structural recursion on the rounds left. Swap/Laws states what the device and the bitmap do,
--   Swap/Transfer the effect of the loops; Swap/RoundTrip and Swap/Full hold the theorems.
-- Vm: the state of Project 3/vm; Vm/Frame is frame.c, Vm/Page is page.c with install_page of
--   Project 3/userprog/process.c, Vm/Fault is page_fault and kill of Project 3/userprog/exception.c.
--   evict_frame has fuel for two rounds of the frame table, and evict_scan
--   takes what it is to be when its fuel is used up; frame_alloc takes the number of evictions
--   that it may try as an argument. Vm/Evict, Vm/Pinned, Vm/Unload, Vm/Load and Vm/FaultSafety hold the theorems.
-- Files: Project 3/userprog/syscall.c, the nine system calls on files over the descriptor table of
--   a process. Files/Calls has the cases of syscall_handler for them; Files/Lookup and Files/Table
--   hold the lemmas and theorems on the table.
-- Alarm: Project 1/thread.c and Project 1/timer.c, the ready list, the wait list and the operations
--   that move a thread between them. An operation that switches threads ends in the thread that was
--   switched to. Alarm/Order has the ordered lists and Alarm/Invariant what holds of the
--   threads; Alarm/Switch and Alarm/Wake hold the theorems.
-- Synch: Project 3/threads/synch.c, semaphores and locks as the pieces between two points where
--   another thread may run (the holder is set after sema_down has returned, and cleared before
--   sema_up), and Step, in which any thread runs its next piece. Synch/Invariant, Synch/Moves and
--   Synch/Exclusion hold what is true in every state that is reached. Synch/Condition has condition
--   variables, with the threads that sleep for one; cond_broadcast has fuel for a round per waiting thread and a last test.
-- Stack: Project 3/userprog/process.c, setup_stack, the arguments of a program on its stack, as the
--   stack pointer and the bytes from there to PHYS_BASE. Stack/Strings, Stack/Loops and Stack/Layout
--   hold the way to its theorem.
-- Pointers: Project 3/userprog/syscall.c, the checks of user pointers, buffers, strings and arguments,
--   and the unpinning of their pages, over Vm/Page. The loops over a string have fuel for its length.
--   Pointers/Ranges holds the theorems on buffers.
-- Children: the list of children of Project 3/userprog/syscall.c, process_wait and the part of
--   process_exit in Project 3/userprog/process.c that meets it, and Step, in which a parent and its
--   children run in any order. Children/Table has the lemmas on the list, Children/Steps what every
--   step keeps, Children/Protocol what holds in every state that is reached.
-- Mmap: memory-mapped files, over the pages of Vm: mmap and munmap of Project 3/userprog/syscall.c,
--   process_add_file, process_get_file, process_close_file, process_add_mmap and process_remove_mmap
--   (munmap here) of Project 3/userprog/process.c, add_mmap_page_tbl of Project 3/vm/page.c. The loop
--   of mmap (map_pages) has fuel for a round per page and a last test. Mmap/Removal has munmap,
--   Mmap/Adding and Mmap/Atomic the way back from a half-made mapping, Mmap/Pages and Mmap/Mapping the
--   page table that a mapping makes.
-- Threads: Project 3/threads/thread.c, the members of a thread as functions of its address; a thread is
--   created in Threads, and gives way in Threads/Switch, where an operation ends in the thread that
--   runs next. Threads/Lists, Threads/Invariant, Threads/Leaving, Threads/Names, Threads/Frames,
--   Threads/Creation and Threads/Operations hold what is true of the lists and the identifiers,
--   Threads/Turns the round robin.
-- Project2: Project 2/userprog/syscall.c (and userprog/syscall.c, the same text), the earlier system
--   calls: Project2 has the list of files, create, remove, open and filesize, Project2/Calls the other
--   calls and the handler. Project2/Lookup, Project2/Locked and Project2/Held hold the theorems.
-- Original: Project 3/Original Files/process.c, argument_tokenize and the arguments on the stack page, with
--   a test before each write. Original/Image has their layout, and Original/Room says
--   when they fit.
-- Exit: process_exit of Project 3/userprog/process.c with page_table_rm of Project 3/vm/page.c, over Mmap,
--   Children and Vm; the order in which the entries of a page table are visited is an argument.
--   Exit/Frees holds its theorem.
-- Examples: concrete machines, at which the theorems are applied.
--
-- Not modelled: messages and statistics that are printed, interrupt registration and hardware timing
-- (timer_calibrate, busy waits), release_locks and the loop of idle of Project 3/threads/thread.c, the
-- start of a process, the creation of threads in Project 1, and the earlier versions of the program
-- loader (process.c of Project 2 and of userprog, and all but the arguments of Project 3/Original
-- Files/process.c).
pub mod Base
pub mod Platform
pub mod Elf
pub mod Loader
pub mod Swap
pub mod Vm
pub mod Files
pub mod Alarm
pub mod Children
pub mod Exit
pub mod Mmap
pub mod Original
pub mod Pointers
pub mod Project2
pub mod Stack
pub mod Synch
pub mod Threads
pub mod Examples
