-- ===== src/Process.antt =====
-- Processes: nanOS/Kernel/process.c. The structs stand in a heap of their own, by address.
pub mod Defs
pub mod Entries
pub mod Status
pub mod Foreground
pub mod Files
pub mod DataPages
pub mod Table
pub mod Lifecycle
