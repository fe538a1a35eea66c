-- ===== src/User.antt =====
-- Programs over the system calls: nanOS/Userland/SampleCodeModule. A string is the list of its
-- characters, without the 0 at its end.
pub mod Shell
pub mod Input
pub mod Clock
pub mod Commands
pub mod Format
