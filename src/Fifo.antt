-- ===== src/Fifo.antt =====
-- Named pipes: nanOS/Kernel/fifo.c.
pub mod Buffer
pub mod Ops
pub mod Info
