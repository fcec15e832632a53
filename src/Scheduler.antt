-- ===== src/Scheduler.antt =====
-- kern/thread/scheduler.c, as kern/include/scheduler.h configures it (PRIORITY_SCHEDULER): run queues
-- of threads by priority.
mod Defs
pub mod Levels
pub mod Pick
pub mod Room
unfoldable pub use Defs.*
