-- ===== src/Allocator.antt =====
-- The page allocators of nanOS/Kernel/memoryAllocator.c.
pub mod Locks
pub mod Pages
pub mod Stacks
