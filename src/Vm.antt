-- ===== src/Vm.antt =====
-- kern/arch/mips/mips/dumbvm.c: address spaces and the page faults of user programs.
mod Defs
pub mod Spaces
mod Translate
mod Moves
pub mod Copy
pub mod Regions
pub mod Faults
pub mod Frames
unfoldable pub use Defs.*
