-- ===== src/Vnode.antt =====
-- kern/fs/vfs/vnode.c: the reference count and the open count of a vnode.
mod Defs
pub mod Balance
unfoldable pub use Defs.*
