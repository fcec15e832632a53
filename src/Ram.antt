-- ===== src/Ram.antt =====
-- kern/arch/mips/mips/ram.c and the page functions of kern/arch/mips/mips/dumbvm.c: physical memory.
mod Defs
pub mod Pages
unfoldable pub use Defs.*
