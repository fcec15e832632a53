-- ===== src/Bitmap/Alloc.antt =====
-- kern/lib/bitmap.c: bitmap_alloc finds the lowest clear bit.
use cs325os.Base.{
  ℕ, zero, suc, ◌+◌, ◌*◌, ◌/◌, ◌%◌, ◌≤◌, ◌<◌, ◌≡◌, refl, subst, ◌⊎◌, inl, inr, Bool, true, false,
  ◌&&◌, ◌||◌, some, ltb, ◌==◌, List, ok, Bool-cases, arith, length, set, get_elem?, get_elem?-of_lt,
  ltb→lt, lt→ltb, ◌∙◌, enospc,
}
use cs325os.Bitmap.Defs.{Bitmap, words_of, word_allbits, test, raise, alloc_from, alloc}
use cs325os.Bitmap.Bytes.{find_offset_lem, ones_below_lem, test-full}
use cs325os.Bitmap.Bits.{IsValid, bit_at, bit_at-raise}
use cs325os.Bitmap.Mark.{raise-IsValid}

-- Every bit below `n` is set.
abbrev pub used_below : ℕ → List ℕ → Bool
used_below zero v = true
used_below (suc n) v = bit_at v n && used_below n v

used_below_of : (n : ℕ) (v : List ℕ) → ((j : ℕ) → j < n → bit_at v j ≡ true) → used_below n v ≡ true
used_below_of zero v h = refl
used_below_of (suc n) v h = rw (h n (omega arith), used_below_of n v (λ j lt. h j (omega arith)))

-- The bits of the bytes before `ix`, and of that byte below the offset `o`.
up_to :
    (v : List ℕ) (ix o w : ℕ)
    → get_elem? v ix ≡ some w
    → o ≤ 8
    → ((k : ℕ) → k < o → test w k ≡ true)
    → ((j : ℕ) → j < ix * 8 → bit_at v j ≡ true)
    → (j : ℕ) → j < ix * 8 + o
    → bit_at v j ≡ true
up_to v ix o w e ho here before j lt = elim (Bool-cases (ltb j (ix * 8))) [
  | inl low ↦ before j (ltb→lt j (ix * 8) low)
  | inr high ↦
      let at : j / 8 ≡ ix = ground arith in
      let e' : get_elem? v (j / 8) ≡ some w = rw at e in
      let k : j % 8 < o = ground arith in rw e' (here (j % 8) k)
]

bit_at-of_byte :
    (v : List ℕ) (ix o w : ℕ) → get_elem? v ix ≡ some w → o < 8 → bit_at v (ix * 8 + o) ≡ test w o
bit_at-of_byte v ix o w e ho =
    let q : (ix * 8 + o) / 8 ≡ ix = omega arith in
    let r : (ix * 8 + o) % 8 ≡ o = omega arith in rw (q, r, e)

-- The bits left over at the end are set, so a clear bit is below `nbits`.
inside_of_clear :
    {b : Bitmap} (i : ℕ) → IsValid b → i < length b.v * 8 → bit_at b.v i ≡ false → i < b.nbits
inside_of_clear {b} i h lt clear = elim (Bool-cases (ltb i b.nbits)) [
  | inl inside ↦ ltb→lt i b.nbits inside
  | inr outside ↦ let used = h.rest i (ground arith) lt in absurd (ground (arith, used, clear))
]

-- The bitmap is full, or the lowest clear bit has been set.
abbrev pub Allocated : Bitmap → Type 0
Allocated b =
    ((used_below b.nbits b.v ≡ true) × (alloc b ≡ ok ((enospc, 0), b)))
    ⊎ ((i : ℕ) × (b' : Bitmap) × (alloc b ≡ ok ((0, i), b'))
        × (i < b.nbits)
        × (bit_at b.v i ≡ false)
        × (used_below i b.v ≡ true)
        × IsValid b'
        × ((j : ℕ) → bit_at b'.v j ≡ ((i == j) || bit_at b.v j)))

alloc_from_lem :
    (n ix : ℕ) {b : Bitmap}
    → IsValid b
    → ix + n ≡ length b.v
    → ((j : ℕ) → j < ix * 8 → bit_at b.v j ≡ true)
    → ((used_below b.nbits b.v ≡ true) × (alloc_from n ix b ≡ ok ((enospc, 0), b)))
      ⊎ ((i : ℕ) × (b' : Bitmap) × (alloc_from n ix b ≡ ok ((0, i), b'))
          × (i < b.nbits)
          × (bit_at b.v i ≡ false)
          × (used_below i b.v ≡ true)
          × IsValid b'
          × ((j : ℕ) → bit_at b'.v j ≡ ((i == j) || bit_at b.v j)))
unfolding alloc_from
alloc_from_lem zero ix {b} h len before =
    inl (used_below_of b.nbits b.v (λ j lt. before j (omega (arith, h.size))), refl)
alloc_from_lem (suc n) ix {b} h len before =
    let (w, e) = get_elem?-of_lt b.v ix (omega arith) in
    let hw = h.bytes ix w e in
    elim (Bool-cases (w == word_allbits)) [
      | inl full ↦
          let ew : 255 ≡ w = ground arith in
          let all : (k : ℕ) → k < 8 → test w k ≡ true =
            subst (λ x. (k : ℕ) → k < 8 → test x k ≡ true) ew test-full in
          let more : (j : ℕ) → j < (ix + 1) * 8 → bit_at b.v j ≡ true =
            λ j lt. up_to b.v ix 8 w e (omega arith) all before j (omega arith) in
          rw (e, full) (alloc_from_lem n (ix + 1) h (omega arith) more)
      | inr open_byte ↦
          let (o, eo, ho, free, ones) = find_offset_lem w hw open_byte in
          let clear : bit_at b.v (ix * 8 + o) ≡ false = bit_at-of_byte b.v ix o w e ho ∙ free in
          let lt = inside_of_clear (ix * 8 + o) h (omega arith) clear in
          let inside : ltb (ix * 8 + o) b.nbits ≡ true = lt→ltb (ix * 8 + o) b.nbits lt in
          inr (
            ix * 8 + o,
            record b { v = set b.v ix (raise w o) },
            rw (e, open_byte, eo, inside),
            lt,
            clear,
            used_below_of (ix * 8 + o) b.v
                (up_to b.v ix o w e (omega arith) (λ k lt. ones_below_lem o w k ones lt) before),
            raise-IsValid ix o w h e ho,
            λ j. bit_at-raise b.v ix o w j e hw ho,
          )
    ]

-- `bitmap_alloc` sets the lowest clear bit and returns its index, or returns ENOSPC and changes
-- nothing if every bit is set. Its assertions hold.
pub alloc-Allocated : {b : Bitmap} → IsValid b → Allocated b
unfolding alloc
alloc-Allocated {b} h =
    let len : 0 + words_of b.nbits ≡ length b.v = omega (arith, h.size, h.small) in
    alloc_from_lem (words_of b.nbits) 0 h len (λ j lt. absurd (omega arith))
