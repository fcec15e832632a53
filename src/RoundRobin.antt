-- ===== src/RoundRobin.antt =====
-- kern/thread/scheduler.c without PRIORITY_SCHEDULER: one run queue.
mod Defs
pub mod Turns
unfoldable pub use Defs.*
