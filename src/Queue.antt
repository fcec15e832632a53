-- ===== src/Queue.antt =====
-- kern/lib/queue.c: a queue of pointers in a ring that grows. A pointer is a value of any type
-- `A`; what `kmalloc` answers to a request of so many bytes is the argument `room`.
mod Defs
pub mod Model
pub mod Grow
pub mod Refine
unfoldable pub use Defs.*
