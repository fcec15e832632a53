-- ===== src/Libc.antt =====
-- lib/libc: the functions on blocks of memory, which the kernel and the user programs share.
mod Defs
pub mod Moves
unfoldable pub use Defs.*
