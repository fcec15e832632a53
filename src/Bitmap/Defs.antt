-- ===== src/Bitmap/Defs.antt =====
-- The functions of bitmap.c. A byte is a number below 256.
use Prim.Native.Nat.{bit_and, bit_or}
use cs325os.Base.{
  ℕ, zero, suc, ◌+◌, ◌-◌, ◌*◌, ◌/◌, ◌%◌, ◌^◌, Bool, not, ◌&&◌, Option, none, some, ltb, ◌==◌,
  if◌then◌else◌, List, Result, ok, panic, fault, ◌>>=◌, ◌>>◌, assert, replicate, set, get_elem?,
  enospc,
}

-- `struct bitmap`
pub record Bitmap : Type 0 where
  pub nbits : ℕ
  pub v : List ℕ

abbrev pub word_allbits : ℕ
word_allbits = 255

-- `DIVROUNDUP(nbits, BITS_PER_WORD)`, in 32 bits.
abbrev pub words_of : ℕ → ℕ
words_of nbits = (nbits + 8 + 2 ^ 32 - 1) % 2 ^ 32 / 8

abbrev pub in_bytes : Option ℕ → Result ℕ
in_bytes none = fault
in_bytes (some w) = ok w

-- `b->v[ix]`
abbrev pub byte_at : List ℕ → ℕ → Result ℕ
byte_at v ix = in_bytes (get_elem? v ix)

-- `w & ((WORD_TYPE)1 << offset)`, as a test.
abbrev pub test : ℕ → ℕ → Bool
test w offset = not (bit_and w (2 ^ offset) == 0)

-- `w | ((WORD_TYPE)1 << offset)`
abbrev pub raise : ℕ → ℕ → ℕ
raise w offset = bit_or w (2 ^ offset)

-- `w & ~((WORD_TYPE)1 << offset)`
abbrev pub lower : ℕ → ℕ → ℕ
lower w offset = bit_and w (255 - 2 ^ offset)

-- `for (j=overbits; j<BITS_PER_WORD; j++) w |= ((WORD_TYPE)1 << j);` with `n` rounds left.
unfoldable pub raise_from : ℕ → ℕ → ℕ → ℕ
raise_from zero j w = w
raise_from (suc n) j w = raise_from n (j + 1) (raise w j)

-- The part of `bitmap_create` that marks the bits left over at the end.
unfoldable pub mark_rest : ℕ → ℕ → List ℕ → Result (List ℕ)
mark_rest nbits words v =
    if ltb (nbits / 8) words
    then (assert (nbits / 8 == words - 1)
        >> assert (ltb 0 (nbits - (words - 1) * 8) && ltb (nbits - (words - 1) * 8) 8)
        >> byte_at v (words - 1)
        >>= λ w. ok (
            set v (words - 1)
              (raise_from (8 - (nbits - (words - 1) * 8)) (nbits - (words - 1) * 8) w)))
    else ok v

-- `bitmap_create`; the new bitmap, or NULL.
unfoldable pub create : (ℕ → Bool) → ℕ → Result (Option Bitmap)
create room nbits =
    if room 8 && room (words_of nbits)
    then (mark_rest nbits (words_of nbits) (replicate (words_of nbits) 0) >>= λ v.
        ok (some (record { nbits = nbits; v = v })))
    else ok none

-- The inner loop of `bitmap_alloc`, with `n` offsets left: the first clear bit.
unfoldable pub find_offset : ℕ → ℕ → ℕ → Result ℕ
find_offset zero offset w = panic
find_offset (suc n) offset w = if test w offset then find_offset n (offset + 1) w else ok offset

-- The outer loop, with `n` bytes left. The value is the error code and the index.
unfoldable pub alloc_from : ℕ → ℕ → Bitmap → Result ((ℕ × ℕ) × Bitmap)
alloc_from zero ix b = ok ((enospc, 0), b)
alloc_from (suc n) ix b = do
  w ← byte_at b.v ix
  if w == word_allbits
      then alloc_from n (ix + 1) b
      else (find_offset 8 0 w >>= λ offset.
          assert (ltb (ix * 8 + offset) b.nbits)
          >> ok ((0, ix * 8 + offset), record b { v = set b.v ix (raise w offset) }))

unfoldable pub alloc : Bitmap → Result ((ℕ × ℕ) × Bitmap)
alloc b = alloc_from (words_of b.nbits) 0 b

-- `bitmap_mark`; `bitmap_translate` gives the byte and the offset.
unfoldable pub mark : Bitmap → ℕ → Result Bitmap
mark b index = do
  assert (ltb index b.nbits)
  w ← byte_at b.v (index / 8)
  assert (not (test w (index % 8)))
  ok (record b { v = set b.v (index / 8) (raise w (index % 8)) })

unfoldable pub unmark : Bitmap → ℕ → Result Bitmap
unmark b index = do
  assert (ltb index b.nbits)
  w ← byte_at b.v (index / 8)
  assert (test w (index % 8))
  ok (record b { v = set b.v (index / 8) (lower w (index % 8)) })

unfoldable pub isset : Bitmap → ℕ → Result Bool
isset b index = byte_at b.v (index / 8) >>= λ w. ok (test w (index % 8))
