-- ===== src/Kheap.antt =====
-- kern/lib/kheap.c: kmalloc and kfree.
mod Refs
mod Defs
pub mod Sizes
pub mod Chain
pub mod Inv
pub mod Bits
pub mod Blocks
mod Update
pub mod Spec
mod Find
pub mod Fresh
mod Page
mod Frame
mod Grow
mod Take
pub mod Alloc
mod Give
mod Back
mod Release
pub mod Free
pub mod Large
pub mod Round
mod Writes
mod Held
mod Requests
pub mod Uses
unfoldable pub use Refs.*
unfoldable pub use Defs.*
