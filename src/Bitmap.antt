-- ===== src/Bitmap.antt =====
-- kern/lib/bitmap.c: arrays of bits.
mod Defs
pub mod Bytes
pub mod Bits
pub mod Mark
pub mod Alloc
pub mod Create
unfoldable pub use Defs.*
