-- ===== src/Lib.antt =====
-- A model of the JOS kernel and its user library: physical pages, page tables, environments, the
-- scheduler, the system calls, traps, the console's buffers and keyboard, the monitor's command line,
-- the symbol tables, the spin lock, the string routines, formatted output, fork and messages, the boot
-- loader and the search for processors, as the files below translate them from kern/, lib/, boot/ and
-- inc/.
--
-- The parts and their files:
-- - Layout: the macros of inc/mmu.h, inc/memlayout.h and inc/types.h on addresses and entries.
-- - State: one record `Kernel` with what the kernel's functions read and change, and the monad `M` of
--   functions on it. A result `ok` returns to the caller, `left` leaves the kernel (to user mode, by
--   halting, or into the monitor), `panic` is a panic or an access through NULL.
-- - Pmap: kern/pmap.c and the inline functions of kern/pmap.h. Page is the allocator and the reference
--   counts, Table the two-level page tables, Boot the memory that is set up at boot (Setup: mem_init
--   and mem_init_mp; Region and Stacks: what these map), UserMem the check
--   of a user's range (Range and Granted: what it tests), and Entry the page directory of kern/entrypgdir.c that the kernel starts on.
-- - Str: lib/string.c, and printnum of lib/printfmt.c. Block is the routines on blocks of bytes, Text
--   those on strings, Number is strtol and printnum.
-- - Print: vprintfmt and vsnprintf of lib/printfmt.c, as functions of memory and arguments, and in
--   Console the buffer of lib/printf.c, with the calls of sys_cputs in their order. Ends is about the
--   formats and strings that vprintfmt reads to their end.
-- - Console: the input buffer, the text display and the keyboard of kern/console.c; Ports and Output
--   are its output on the serial port, the printer and the display.
-- - Spinlock: kern/spinlock.c, a round of one CPU at a time, and the interleavings of several CPUs.
-- - Env: kern/env.c and kern/sched.c. Lookup is envid2env, Life is allocating and freeing, Sched is
--   the context switch of env_run and the search of sched_yield, Load is load_icode and env_create.
-- - Syscall: kern/syscall.c. Envs and Pages are the calls on environments and on pages, Ipc the
--   messages between environments, and Dispatch the switch on the call's number.
-- - Trap: kern/trap.c. Gates is the table of trap_init, UserStack the kernel's stores at user
--   addresses, Fault page_fault_handler, Dispatch trap and trap_dispatch, Leaves a system call's trap;
--   Stack, Pushed and Upcall are what the user's handler finds on its stack.
-- - User: lib/fork.c, lib/pgfault.c and lib/ipc.c, over the interface of System, which stands for
--   lib/syscall.c and what a program reads of the kernel.
-- - Stab: kern/kdebug.c. Monitor: readline of lib/readline.c and runcmd of kern/monitor.c.
-- - Loader: boot/main.c. Processors: kern/mpconfig.c; Pointer and Listing are its search and its loop,
--   BootCpu the entries flagged as the boot processor's, Init is mp_init.
-- - Start: boot_aps and mp_main of kern/init.c with the stack pointer's load in kern/mpentry.S, as steps
--   of the boot processor and of the others in any order; what a processor does behind its status is
--   Spinlock's and Env's. Ends counts the steps that are left, and Fair is the orders of steps in
--   which no processor stops.
-- - Common: tests, lists and bits that the parts share. Tests: the theorems run on a small state.
--
-- How they interact: a system call finds its environment by envid2env, edits that environment's page
-- tables by page_insert and page_remove, which take pages from and return them to the free list, and
-- gives up the CPU by sched_yield, which leaves the kernel by env_run. A trap saves its frame in the
-- environment, and ends in a system call, in the environment's handler for page faults, or in the
-- scheduler.
--
-- What corresponds to what: a pointer into `pages` or `envs` is an Option of an index, and NULL is
-- none. A physical page is its number, and `word n i` is the i-th 32-bit word of page n, so that page
-- directories and tables are words of pages and the kernel's address of a page is its physical one.
-- A machine word is a number with its wrap-around written out. A write of bootcpu's status
-- behind the array of processors, which C leaves undefined, is none. An error is a constructor of `Error`,
-- whose number Dispatch gives.
--
-- Bounds: the loop of sched_yield runs for the 1024 rounds that the source counts. The loop of
-- user_mem_check has fuel for one round more than the address space has pages, and each round passes
-- one page. The loop of boot_map_region has fuel for two rounds more than the size has pages. The
-- loops on strings have the caller's fuel, and one round more than the string's length is enough;
-- printnum has fuel for the 64 digits that a 64-bit number has at most. vprintfmt has one number as
-- fuel for its format and for its strings, and the length of the format and of the longest string and
-- two rounds more are enough. The loops of runcmd have one
-- number as fuel, for which one more than the line's length is enough; stab_binsearch counts its own,
-- two rounds for each entry and one more. ipc_send is given a number of rounds, since only the
-- receiver can end it; readline runs on the list of keys. readseg has fuel for three rounds more than
-- the segment has whole sectors.
--
-- Not modelled: the self tests of mem_init, the output of cprintf, segment registers and the kernel
-- stack, the ports of the other devices, the monitor's commands, and the parts of the repository
-- beyond these files. Beyond the lock itself only one CPU is modelled (but for Start), since the
-- rest of the kernel runs under the lock. The console and the monitor are parameters of the calls
-- that use them, as are the address that the processor has in CR2 and its flags for a trap, the
-- symbol tables for debuginfo_eip, what the devices answer to the reads of their ports, and the
-- address of `envs` and the end of the kernel's image for the functions at boot, the stacks'
-- addresses, the bytes of the clock's memory, the disk's sectors for the loader, and the firmware's
-- memory and port 0x23 for mp_init. What the kernel answers is a parameter of the user library.
pub mod Common
pub mod Console
pub mod Env
pub mod Layout
pub mod Loader
pub mod Monitor
pub mod Pmap
pub mod Print
pub mod Processors
pub mod Spinlock
pub mod Stab
pub mod Start
pub mod State
pub mod Str
pub mod Syscall
pub mod Tests
pub mod Trap
pub mod User
