-- ===== src/Lib.antt =====
-- The nanOS system of TPE-Arqui: the kernel's memory, processes, mutexes, condition variables,
-- queues, pipes, scheduler, timer, keyboard and screen, and of the programs that run on it the
-- dining philosophers, a producer and a consumer, the shell with its commands, the standard
-- input and output, the clock and the random numbers.
--
-- The kernel runs one processor with timer interrupts. Its parts call one another: processes
-- take their structs and stacks from the page allocators; mutexes, condition variables and
-- pipes keep processes in queues and block and unblock them; pipes hold bytes in a circular
-- buffer; the timer and the keyboard wake processes. The programs reach it by system calls: the
-- philosophers share one mutex and wait at a mutex of their own for the forks, the producer and
-- the consumer share a buffer under a mutex and wait at a condition variable, or share two
-- pipes, and the shell reads lines from the keyboard and hands a command its arguments. A
-- module of this library stands for a file of nanOS/Kernel or of
-- nanOS/Userland/SampleCodeModule, and its definitions carry the names of the source's
-- functions, types and fields. A function that changes statics or memory takes the state and
-- returns the new one.
--
--   Allocator  memoryAllocator.c: data pages (Pages) and process stacks (Stacks)
--   Process    process.c: states, foreground, files, data pages, the table, create and destroy
--   Mutex      kernelMutex.c, with _unlocked of asm/test_lock.asm and the superlock of
--              processManager.c
--   Cond       condVariable.c
--   Queue      queueADT.c: linked cells by address
--   IntList    intLinkedlistADT.c: linked nodes by address
--   Fifo       fifo.c: the circular buffer (Buffer), the operations on pipes (Ops) and their listing
--              (Info)
--   Scheduler  processManager.c: the ring of processes; process_info.c (Info)
--   Timer      timer.c: linked structs by address
--   Keyboard   keyboardDriver.c and include/keyboardmap.h
--   Syscalls   systemCalls.c, the handler in asm/interrupts.asm, and int80h.asm and syscalls.c of the
--              programs
--   Video      videoDriver.c, with include/font.h and pixel_map of font.c; its strings and numbers
--              (Text)
--   Libc       lib.c (Copy and Numbers), strings.c and ctype.c
--   Philo      philo.c
--   ProdCons   producerConsumer2.c; producerConsumer.c (Pipes)
--   User       stdio.c (Input and Format), shell.c, isnum of commands.c and build_arguments of
--              executer.c (Shell), commands.c (Commands), time.c and random.c (Clock)
--   Tests      concrete inputs
--
-- Numbers are natural numbers, with the wrap-around of the source's unsigned types written out;
-- an `int` that can be negative is `ℤ`. Memory is a function from addresses to bytes, structs
-- stand in functions from addresses to records, and tables of the kernel are lists. Names and
-- other strings that a struct holds, and the lines and words of the shell, are lists of bytes.
-- A queue of processes or readers is the list that Queue.Refine shows it to be, and the pages
-- of its cells are not counted in the state of its owner. Undefined behaviour (a copy that
-- leaves the buffer of a pipe, a shift that is too wide, an overflow of `int`) and a spin that
-- would not end are `none`. A name that the kernel copies into an array of 64 bytes is taken to
-- be shorter: the source does not look at its length, and the theorems that need it say so. So
-- do those that need a free page: with none left `get_page` locks its mutex twice and never
-- comes back. The pictures of the characters and the keys that the user types are arguments.
--
-- Where one part guards itself with a mutex of another, the calls of lock and unlock are
-- recorded in order. A function that waits is split at the wait: it goes as far as the point
-- where the process yields, and what follows is a function of its own; where cond_wait has
-- entered its process in the queue and not yet blocked it, others can run, and the two steps
-- are functions of their own. The interleavings of the processes at a mutex are steps of a
-- relation, in Mutex.Exclusion, those of the philosophers in Philo.Safety and Philo.Progress,
-- those of the producer and the consumer in ProdCons.Safety and ProdCons.Pipes.Order, and the
-- operations of the scheduler in any order in Scheduler.Ring.Refine.
--
-- Loops over a table or a list are structural recursion. The loops over strings and those of
-- destroy_queue, timer_handler and set_next_current have fuel; one unit more than the string
-- has characters, the queue elements, the list sleepers, or the ring blocked processes to pass,
-- is enough. For itoa it is the number of the digits, and for atoi one more; printf has the 64
-- characters of its array for a number, and one unit more than the longest text for the others;
-- for remove_int and destroy_int_list it is one more than the nodes.
--
-- Not modelled: the switch of stacks; the set-up of the processor and assembly, which only
-- drive hardware; the texts of help and usage, and the commands that only pass their arguments
-- to a system call; the drawing programs; the end, the pause and the drawing of the
-- philosophers.
pub mod Prelude
pub mod Libc
pub mod Allocator
pub mod Process
pub mod Mutex
pub mod Queue
pub mod Fifo
pub mod Cond
pub mod IntList
pub mod Keyboard
pub mod Philo
pub mod ProdCons
pub mod Scheduler
pub mod Syscalls
pub mod Timer
pub mod User
pub mod Video
pub mod Tests
