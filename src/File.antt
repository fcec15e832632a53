-- ===== src/File.antt =====
-- kern/userprog/file.c: the system calls on files, over the file table of the current thread, and
-- how kern/arch/mips/mips/syscall.c hands their results to the user.
mod Defs
pub mod Access
pub mod Faults
unfoldable pub use Defs.*
