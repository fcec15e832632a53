-- ===== src/Synch.antt =====
-- kern/thread/synch.c: semaphores.
mod Defs
pub mod Locks
pub mod Runs
mod Steps
pub mod Safety
pub mod Count
pub mod Tokens
unfoldable pub use Defs.*
