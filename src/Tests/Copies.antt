-- ===== src/Tests/Copies.antt =====
-- Copying between a user program and the kernel, with a page that faults.
use cs325os.Base.{ℕ, Bool, ltb, leb, ◌&&◌, ◌%◌, arith}
use cs325os.Libc.{Memory}
use cs325os.Copyinout.{copyin, copyout}
use cs325os.Copyinout.Blocks as Blocks
use cs325os.Copyinout.Blocks.{copyin-Answer, copyout-Answer}
use cs325os.Copyinout.Strings as Strings

-- The page at 0x400000 faults.
abbrev missing : ℕ → Bool
missing a = leb 0x400000 a && ltb a 0x401000

abbrev bytes : Memory
bytes a = a % 7

copyin-Answer_example :
    Blocks.Answer missing 0x3ffff8 0x80001000 0x3ffff8 16 bytes
      (copyin missing 0x3ffff8 0x80001000 16 bytes)
copyin-Answer_example =
    copyin-Answer missing 0x3ffff8 0x80001000 16 bytes (omega arith) (omega arith) (omega arith)
      (omega arith)

copyout-Answer_example :
    Blocks.Answer missing 0x300001 0x300001 0x80001000 5 bytes
      (copyout missing 0x80001000 0x300001 5 bytes)
copyout-Answer_example =
    copyout-Answer missing 0x80001000 0x300001 5 bytes (omega arith) (omega arith) (omega arith)
      (omega arith)
