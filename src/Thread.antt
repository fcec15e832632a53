-- ===== src/Thread.antt =====
-- kern/thread/thread.c: sleeping and waking, and leaving the processor.
mod Defs
pub mod Sleepers
pub mod Ready
pub mod Changes
unfoldable pub use Defs.*
