-- ===== src/Bitmap/Mark.antt =====
-- kern/lib/bitmap.c: bitmap_mark, bitmap_unmark and bitmap_isset.
use cs325os.Base.{
  ℕ, ◌+◌, ◌*◌, ◌/◌, ◌%◌, ◌<◌, ◌≡◌, subst, ◌⊎◌, inl, inr, true, false, not, ◌&&◌, ◌||◌, some, ltb,
  ◌==◌, List, ok, panic, Bool-cases, arith, length, set, get_elem?, get_elem?-set, lt_of_get_elem?,
  length-set,
}
use cs325os.Bitmap.Defs.{Bitmap, test, raise, lower, mark, unmark, isset}
use cs325os.Bitmap.Bytes.{raise-lt, lower-lt}
use cs325os.Bitmap.Bits.{IsValid, bit_at, bit_at-raise, bit_at-lower, byte_of}

set-bytes :
    (v : List ℕ) (ix w : ℕ)
    → ((k x : ℕ) → get_elem? v k ≡ some x → x < 256)
    → ix < length v
    → w < 256
    → (k x : ℕ) → get_elem? (set v ix w) k ≡ some x
    → x < 256
set-bytes v ix w h lt hw k x e = elim (Bool-cases (ix == k)) [
  | inl hit ↦ let same : w ≡ x = ground (arith, get_elem?-set v ix k w lt, e, hit) in omega arith
  | inr miss ↦ h k x (ground (arith, get_elem?-set v ix k w lt, e, miss))
]

-- To set a bit keeps a bitmap valid.
pub raise-IsValid :
    {b : Bitmap} (ix o w : ℕ)
    → IsValid b
    → get_elem? b.v ix ≡ some w
    → o < 8
    → IsValid (record b { v = set b.v ix (raise w o) })
raise-IsValid {b} ix o w h e ho =
    let hw = h.bytes ix w e in
    let lt = lt_of_get_elem? b.v ix e in
    let len = length-set b.v ix (raise w o) in
    record {
      small = h.small;
      size = omega (arith, h.size, len);
      bytes = set-bytes b.v ix (raise w o) h.bytes lt (raise-lt w o hw ho);
      rest = λ i ge below.
          let old = h.rest i ge (omega (arith, below, len)) in
          ground (arith, bit_at-raise b.v ix o w i e hw ho, old);
    }

-- So does to clear one below `nbits`.
pub lower-IsValid :
    {b : Bitmap} (ix o w : ℕ)
    → IsValid b
    → get_elem? b.v ix ≡ some w
    → o < 8
    → ix * 8 + o < b.nbits
    → IsValid (record b { v = set b.v ix (lower w o) })
lower-IsValid {b} ix o w h e ho inside =
    let hw = h.bytes ix w e in
    let lt = lt_of_get_elem? b.v ix e in
    let len = length-set b.v ix (lower w o) in
    record {
      small = h.small;
      size = omega (arith, h.size, len);
      bytes = set-bytes b.v ix (lower w o) h.bytes lt (lower-lt w o hw ho);
      rest = λ i ge below.
          let old = h.rest i ge (omega (arith, below, len)) in
          let apart : (ix * 8 + o == i) ≡ false = ground arith in
          ground (arith, bit_at-lower b.v ix o w i e hw ho, old, apart);
    }

whole : (i : ℕ) → i / 8 * 8 + i % 8 ≡ i
whole i = omega arith

-- `bitmap_mark` of a bit below `nbits` sets that bit alone, or panics if it is set.
pub mark-bit_at :
    {b : Bitmap} (i : ℕ)
    → IsValid b
    → i < b.nbits
    → ((bit_at b.v i ≡ true) × (mark b i ≡ panic))
      ⊎ ((b' : Bitmap) × (bit_at b.v i ≡ false)
          × (mark b i ≡ ok b')
          × IsValid b'
          × ((j : ℕ) → bit_at b'.v j ≡ ((i == j) || bit_at b.v j)))
unfolding mark
mark-bit_at {b} i h lt =
    let (w, e, hw) = byte_of i h (omega (arith, h.size)) in
    let inside : ltb i b.nbits ≡ true = ground arith in
    let o : i % 8 < 8 = omega arith in
    elim (Bool-cases (test w (i % 8))) [
      | inl used ↦ inl (rw (e, used), rw (inside, e, used))
      | inr free ↦ inr (
        record b { v = set b.v (i / 8) (raise w (i % 8)) },
        rw (e, free),
        rw (inside, e, free),
        raise-IsValid (i / 8) (i % 8) w h e o,
        λ j.
            subst (λ k. bit_at (set b.v (i / 8) (raise w (i % 8))) j ≡ ((k == j) || bit_at b.v j))
              (whole i) (bit_at-raise b.v (i / 8) (i % 8) w j e hw o),
      )
    ]

-- `bitmap_unmark` of a bit below `nbits` clears that bit alone, or panics if it is clear.
pub unmark-bit_at :
    {b : Bitmap} (i : ℕ)
    → IsValid b
    → i < b.nbits
    → ((bit_at b.v i ≡ false) × (unmark b i ≡ panic))
      ⊎ ((b' : Bitmap) × (bit_at b.v i ≡ true)
          × (unmark b i ≡ ok b')
          × IsValid b'
          × ((j : ℕ) → bit_at b'.v j ≡ (not (i == j) && bit_at b.v j)))
unfolding unmark
unmark-bit_at {b} i h lt =
    let (w, e, hw) = byte_of i h (omega (arith, h.size)) in
    let inside : ltb i b.nbits ≡ true = ground arith in
    let o : i % 8 < 8 = omega arith in
    elim (Bool-cases (test w (i % 8))) [
      | inr free ↦ inl (rw (e, free), rw (inside, e, free))
      | inl used ↦ inr (
        record b { v = set b.v (i / 8) (lower w (i % 8)) },
        rw (e, used),
        rw (inside, e, used),
        lower-IsValid (i / 8) (i % 8) w h e o (omega (arith, whole i)),
        λ j.
            subst
              (λ k. bit_at (set b.v (i / 8) (lower w (i % 8))) j ≡ (not (k == j) && bit_at b.v j))
              (whole i) (bit_at-lower b.v (i / 8) (i % 8) w j e hw o),
      )
    ]

-- For a bit in one of the bytes, `bitmap_isset` reads the bit.
pub isset-bit_at :
    {b : Bitmap} (i : ℕ) → IsValid b → i < length b.v * 8 → isset b i ≡ ok (bit_at b.v i)
unfolding isset
isset-bit_at {b} i h lt = let (w, e, hw) = byte_of i h lt in rw e
