-- ===== src/Lib.antt =====
-- The kernel of the Lightweight Operating System (src/ of the repository): a file system image, text
-- screens for three terminals, a clock and a terminal driver, processes with a table of file
-- descriptors, system calls, paging and a round robin between the terminals.
--
-- The parts, and the file of this library for each (child modules hold the proofs):
--   Str         src/lib.c: strlen, strncmp, strcpy, strncpy, strrev, itoa
--   Copy        src/lib.c: memcpy, memmove, memset, with their inline assembly step by step
--   FileSys     src/file_sys.c: fileSystem_init, read_dentry_by_name, read_dentry_by_index, read_data
--   FileDriver  src/file_sys.c: dir_read, dir_open, file_read, file_open and the constant ones
--   Hardware    port writes and the interrupt flag
--   Pic         src/i8259.c
--   Process     src/sys_calls.h: blocks, descriptors and tables of operations, and where blocks lie
--   Screen      src/lib.c: putc, clear and update_cursor on a page of video memory
--   Kernel      the globals of all files, putc and clear over them
--   Keyboard    src/keyboard.c: the scan code tables, keyboard_init and keyboard_handler
--   Terminal    src/keyboard.c: terminal_read, terminal_write; puts and printf of src/lib.c
--   Rtc         src/RTC.c
--   Paging      src/paging.c and the entries of src/x86_desc.h
--   Scheduler   src/pit.c, and vidmap of src/sys_calls.c
--   Syscall     src/sys_calls.c: read, write, open, close, getargs
--   Execute     src/sys_calls.c: execute and halt
--   Interrupts  src/interrupts.c: setup_IDT and exc_handler; the descriptor of src/x86_desc.h
--   Boot        src/kernel.c: paging, the interrupt table and the devices at start-up; enable_cursor
--   Support     syscalls/ece391support.c, the user programs' library
--   Programs    syscalls/ece391*.c: cat, ls, grep, hello, testprint, counter, pingpong, shell, syserr
--               over an interface of system calls, and the kernel as that interface (OnKernel)
--   Prelude     shared names, lemmas on tests, lists, words and bits
--   Tests       the theorems at concrete inputs
--
-- How the parts meet: a system call (Syscall) finds the current process's descriptor (Process) and calls
-- the function of its table (FileDriver, Rtc, Terminal). Those use the image (FileSys), the strings and
-- copies (Str, Copy), and print through putc (Kernel, Screen). The timer (Scheduler) switches threads and
-- writes the paging tables (Paging). `execute` finds a program in the image, gives it a process number,
-- a page and a block, and `halt` in it goes back to the caller (Execute). At start-up (Boot) the kernel
-- sets up the tables (Paging, Interrupts) and the devices. A user program (Programs) is a function over a
-- record of the system calls; OnKernel fills the record with the calls above, behind the check of the
-- call's number in src/sys_calls_handler.S.
--
-- State. Memory is a function from addresses to bytes; a word is a number below 2 ^ 32, with the
-- remainder written out where the source wraps; a C int is its 32-bit pattern. A pointer to a process
-- block is the process number, since blocks lie at fixed addresses (Process.Address). Functions of C that
-- change globals take and return a record. What a local variable on the stack holds before it is written,
-- what a port reads as and the value of EBP are arguments. A wait (rtc_read, terminal_read) splits the
-- function in two. Memory is physical: the kernel's addresses are mapped to themselves, `execute` writes
-- the program to where the processor translates PROGRAM_START to, and a system call's pointers are taken
-- as already translated. `none` and `fault` stand for a divide error, a call through a null pointer, a
-- store past the user's page in execute or vidmap, or fuel that ran out. What is on a screen is stated by
-- `Shows` (Terminal.Showing): a chain of displays, from each to the next by `putc` of one character.
--
-- Fuel. strlen, strcpy, puts, printf, strrev and itoa take fuel; the theorems on strlen, printf, strrev
-- and itoa state how much is enough (more than the length of the string, or than the digits of the value).
-- execute takes fuel for the words of the command and for strlen, with `fault` if it runs out. The chains of
-- parents and children get 8, more than the six blocks there are. The loop of rtc_write gets 17, more
-- than the 16 halvings of 32768. The user programs take one fuel for their reads and one for the string
-- functions; the theorems on them say how much is enough.
--
-- Not modelled: what entry prints of the boot loader's record; the assembly stubs, except the check of a
-- system call's number; sigtest, which writes through a null pointer to raise a fault; emulate, which runs
-- on a Linux host; the kernel's own tests; the interleaving of interrupts with the system calls. In a
-- session of a user program on the kernel, the run of a program that execute starts, the state in which
-- the interrupts leave a waiting call, and a raw trap with a valid number are arguments.
pub mod Prelude
pub mod Str
pub mod Copy
pub mod FileSys
pub mod Hardware
pub mod Pic
pub mod Process
pub mod Screen
pub mod Kernel
pub mod Keyboard
pub mod Terminal
pub mod Rtc
pub mod Paging
pub mod Scheduler
pub mod FileDriver
pub mod Syscall
pub mod Execute
pub mod Interrupts
pub mod Support
pub mod Programs
pub mod Boot
pub mod Tests
