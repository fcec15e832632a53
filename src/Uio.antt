-- ===== src/Uio.antt =====
-- kern/userprog/uio.c: moving data between a kernel buffer and the buffer of a uio.
mod Defs
mod Moves
pub mod Copies
unfoldable pub use Defs.*
