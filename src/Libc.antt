-- ===== src/Libc.antt =====
-- The kernel's own C library: Kernel/lib.c, Kernel/strings.c and Kernel/ctype.c.
pub mod Copy
pub mod Ctype
pub mod Strings
pub mod Numbers
