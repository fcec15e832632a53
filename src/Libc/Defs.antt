-- ===== src/Libc/Defs.antt =====
-- memcpy.c, memmove.c, bzero.c and memset.c of lib/libc. Memory is a function from addresses to bytes; a
-- block does not reach around the top of the address space. `long` has four bytes.
use cs325os.Base.{ℕ, zero, suc, ◌+◌, ◌-◌, ◌*◌, ◌/◌, ◌%◌, Bool, ◌&&◌, ltb, leb, ◌==◌, if◌then◌else◌}

abbrev pub Memory : Type 0
Memory = ℕ → ℕ

abbrev pub sizeof_long : ℕ
sizeof_long = 4

-- `x` is one of the `n` addresses from `a` on.
abbrev pub within : ℕ → ℕ → ℕ → Bool
within a n x = leb a x && ltb x (a + n)

-- `*d = *s` for an element of `w` bytes.
unfoldable pub assign : ℕ → ℕ → ℕ → Memory → Memory
assign w d s mem x = if within d w x then mem (s + (x - d)) else mem x

-- The loops that copy upwards, from the element `i` with `n` rounds left.
unfoldable pub copy_up : ℕ → ℕ → ℕ → ℕ → ℕ → Memory → Memory
copy_up w zero i d s mem = mem
copy_up w (suc n) i d s mem = copy_up w n (i + 1) d s (assign w (d + i * w) (s + i * w) mem)

-- The loops that copy downwards, with `i` elements left.
unfoldable pub copy_down : ℕ → ℕ → ℕ → ℕ → Memory → Memory
copy_down w zero d s mem = mem
copy_down w (suc i) d s mem = copy_down w i d s (assign w (d + i * w) (s + i * w) mem)

abbrev pub by_words : ℕ → ℕ → ℕ → Bool
by_words d s len = (d % sizeof_long == 0) && (s % sizeof_long == 0) && (len % sizeof_long == 0)

unfoldable pub memcpy : ℕ → ℕ → ℕ → Memory → Memory
memcpy dst src len mem =
    if by_words dst src len
    then copy_up sizeof_long (len / sizeof_long) 0 dst src mem
    else copy_up 1 len 0 dst src mem

unfoldable pub memmove : ℕ → ℕ → ℕ → Memory → Memory
memmove dst src len mem =
    if ltb dst src
    then memcpy dst src len mem
    else if by_words dst src len
    then copy_down sizeof_long (len / sizeof_long) dst src mem
    else copy_down 1 len dst src mem

-- `w` bytes of value `ch`.
unfoldable pub store : ℕ → ℕ → ℕ → Memory → Memory
store w d ch mem x = if within d w x then ch else mem x

unfoldable pub fill : ℕ → ℕ → ℕ → ℕ → ℕ → Memory → Memory
fill w zero i d ch mem = mem
fill w (suc n) i d ch mem = fill w n (i + 1) d ch (store w (d + i * w) ch mem)

unfoldable pub bzero : ℕ → ℕ → Memory → Memory
bzero block len mem =
    if (block % sizeof_long == 0) && (len % sizeof_long == 0)
    then fill sizeof_long (len / sizeof_long) 0 block 0 mem
    else fill 1 len 0 block 0 mem

-- `ch` is an `int`; its low byte is stored.
unfoldable pub memset : ℕ → ℕ → ℕ → Memory → Memory
memset ptr ch len mem = fill 1 len 0 ptr (ch % 256) mem
