-- ===== src/Tests.antt =====
-- The theorems at concrete inputs, and runs of the code.
mod Allocator
mod Buffer
mod Cond
mod Copy
mod Fifo
mod Format
mod IntList
mod Keyboard
mod Libc
mod Lifecycle
mod Mutex
mod Philo
mod Process
mod ProdCons
mod Queue
mod Scheduler
mod Syscalls
mod Timer
mod User
mod Video
