-- ===== src/Array.antt =====
-- kern/lib/array.c: a growable array of pointers. A pointer is a value of any type `A`; what
-- `kmalloc` answers to a request of so many bytes is the argument `room`.
mod Defs
pub mod Grow
pub mod Items
pub mod Room
pub mod Access
unfoldable pub use Defs.*
