-- ===== src/Copyinout.antt =====
-- kern/lib/copyinout.c: copying between the kernel and user programs.
mod Defs
pub mod Blocks
pub mod Strings
unfoldable pub use Defs.*
