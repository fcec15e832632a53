-- ===== src/Base/Machine.antt =====
-- Numbers of the machine (kern/arch/mips: 32 bits) and the codes of kern/include/kern/errno.h.
use Prim.Native.Nat.{ℕ, ◌*◌, ◌%◌, ◌^◌}

-- The first number that is no `int`.
abbrev pub int_limit : ℕ
int_limit = 2 ^ 31

-- `n * sizeof(void *)` as a `size_t`.
abbrev pub bytes_of : ℕ → ℕ
bytes_of n = n * 4 % 2 ^ 32

abbrev pub efault : ℕ
efault = 2

abbrev pub enomem : ℕ
enomem = 4

abbrev pub einval : ℕ
einval = 1

abbrev pub enospc : ℕ
enospc = 20

abbrev pub ebadf : ℕ
ebadf = 26
