-- ===== src/Copyinout/Defs.antt =====
-- The functions of copyinout.c. `bad` says at which addresses an access faults fatally: the kernel resumes in
-- copyfail then, and longjmp makes the function return EFAULT with what is copied so far. The memory is that
-- which the kernel sees, the user's below `usertop` and its own above.
use cs325os.Base.{
  ℕ, zero, suc, ◌+◌, ◌-◌, ◌*◌, ◌/◌, ◌%◌, Bool, true, false, not, ◌||◌, Option, none, some, ltb, leb,
  ◌==◌, if◌then◌else◌, efault,
}
use cs325os.Libc.{Memory, by_words, assign, sizeof_long}
use cs325os.Ram.{word, kseg0}

abbrev pub enametoolong : ℕ
enametoolong = 3

abbrev pub usertop : ℕ
usertop = kseg0

-- `copycheck`: the error code and `stoplen`.
unfoldable pub copycheck : ℕ → ℕ → ℕ × ℕ
copycheck userptr len =
    let top = (userptr + len + word - 1) % word in
    if ltb top userptr
    then (efault, len)
    else if leb usertop userptr
    then (efault, len)
    else if leb usertop top
    then (0, usertop - userptr)
    else (0, len)

-- The loops of memcpy while a fault is caught, from the element `i` on: `false` if one was.
unfoldable pub guarded : (ℕ → Bool) → ℕ → ℕ → ℕ → ℕ → ℕ → Memory → Bool × Memory
guarded bad w zero i d s mem = (true, mem)
guarded bad w (suc n) i d s mem =
    if bad (s + i * w) || bad (d + i * w)
    then (false, mem)
    else guarded bad w n (i + 1) d s (assign w (d + i * w) (s + i * w) mem)

unfoldable pub guarded_memcpy : (ℕ → Bool) → ℕ → ℕ → ℕ → Memory → Bool × Memory
guarded_memcpy bad dst src len mem =
    if by_words dst src len
    then guarded bad sizeof_long (len / sizeof_long) 0 dst src mem
    else guarded bad 1 len 0 dst src mem

-- What setjmp leads to.
abbrev pub recovered : Bool × Memory → ℕ × Memory
recovered (true, mem) = (0, mem)
recovered (false, mem) = (efault, mem)

-- A block between the user address `userptr` and the kernel: `copyin` and `copyout` differ in the order of the two.
unfoldable pub copy_checked : (ℕ → Bool) → ℕ → ℕ → ℕ → ℕ → Memory → ℕ × Memory
copy_checked bad userptr dst src len mem =
    let (result, stoplen) = copycheck userptr len in
    if not (result == 0)
    then (result, mem)
    else if not (stoplen == len)
    then (efault, mem)
    else recovered (guarded_memcpy bad dst src len mem)

unfoldable pub copyin : (ℕ → Bool) → ℕ → ℕ → ℕ → Memory → ℕ × Memory
copyin bad usersrc dest len mem = copy_checked bad usersrc dest usersrc len mem

unfoldable pub copyout : (ℕ → Bool) → ℕ → ℕ → ℕ → Memory → ℕ × Memory
copyout bad src userdest len mem = copy_checked bad userdest userdest src len mem

-- The end of `copystr` without a terminator.
abbrev pub too_long : ℕ → ℕ → ℕ
too_long maxlen stoplen = if ltb stoplen maxlen then efault else enametoolong

-- `copystr` from the byte `i` on, with `n` bytes left of `maxlen`: the error code, `gotlen` and the memory.
unfoldable pub copystr_from : (ℕ → Bool) → ℕ → ℕ → ℕ → ℕ → ℕ → ℕ → Memory → ℕ × Option ℕ × Memory
copystr_from bad zero i dest src maxlen stoplen mem = (too_long maxlen stoplen, none, mem)
copystr_from bad (suc n) i dest src maxlen stoplen mem =
    let mem' = assign 1 (dest + i) (src + i) mem in
    let rest = copystr_from bad n (i + 1) dest src maxlen stoplen mem' in
    if ltb i stoplen
    then (if bad (src + i) || bad (dest + i)
        then (efault, none, mem)
        else if mem' (src + i) == 0
        then (0, some (i + 1), mem')
        else rest)
    else (too_long maxlen stoplen, none, mem)

unfoldable pub copystr : (ℕ → Bool) → ℕ → ℕ → ℕ → ℕ → Memory → ℕ × Option ℕ × Memory
copystr bad dest src maxlen stoplen mem = copystr_from bad maxlen 0 dest src maxlen stoplen mem

abbrev pub str_checked : (ℕ → Bool) → ℕ → ℕ → ℕ → ℕ → Memory → ℕ × Option ℕ × Memory
str_checked bad userptr dest src len mem =
    let (result, stoplen) = copycheck userptr len in
    if not (result == 0) then (result, none, mem) else copystr bad dest src len stoplen mem

unfoldable pub copyinstr : (ℕ → Bool) → ℕ → ℕ → ℕ → Memory → ℕ × Option ℕ × Memory
copyinstr bad usersrc dest len mem = str_checked bad usersrc dest usersrc len mem

unfoldable pub copyoutstr : (ℕ → Bool) → ℕ → ℕ → ℕ → Memory → ℕ × Option ℕ × Memory
copyoutstr bad src userdest len mem = str_checked bad userdest userdest src len mem
