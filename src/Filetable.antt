-- ===== src/Filetable.antt =====
-- kern/userprog/filetable.c: the table of open files of a thread, over the arrays of array.c.
mod Defs
pub mod Table
pub mod Add
pub mod Copy
pub mod Remove
unfoldable pub use Defs.*
