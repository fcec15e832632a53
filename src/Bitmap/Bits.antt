-- ===== src/Bitmap/Bits.antt =====
-- kern/lib/bitmap.c: the bits that a bitmap holds, and marking and testing one.
use cs325os.Base.{
  ℕ, ◌+◌, ◌-◌, ◌*◌, ◌/◌, ◌%◌, ◌^◌, ◌≤◌, ◌<◌, ◌≡◌, sym, inl, inr, Bool, true, false, not, ◌&&◌, ◌||◌,
  Option, none, some, ◌==◌, List, Bool-cases, arith, length, set, get_elem?, get_elem?-set,
  get_elem?-of_lt, lt_of_get_elem?,
}
use cs325os.Bitmap.Defs.{Bitmap, test, raise, lower}
use cs325os.Bitmap.Bytes.{test-raise, test-lower}

abbrev pub byte_bit : Option ℕ → ℕ → Bool
byte_bit none k = false
byte_bit (some w) k = test w k

-- The bit `i` of the bytes `v`.
abbrev pub bit_at : List ℕ → ℕ → Bool
bit_at v i = byte_bit (get_elem? v (i / 8)) (i % 8)

-- As many bytes as the bits need, and the bits left over at the end are in use.
pub record IsValid (b : Bitmap) : Type 0 where
  pub small : b.nbits < 2 ^ 32 - 8
  pub size : length b.v ≡ (b.nbits + 7) / 8
  pub bytes : (ix w : ℕ) → get_elem? b.v ix ≡ some w → w < 256
  pub rest : (i : ℕ) → b.nbits ≤ i → i < length b.v * 8 → bit_at b.v i ≡ true

pub bit_at-raise :
    (v : List ℕ) (ix o w j : ℕ)
    → get_elem? v ix ≡ some w
    → w < 256
    → o < 8
    → bit_at (set v ix (raise w o)) j ≡ ((ix * 8 + o == j) || bit_at v j)
bit_at-raise v ix o w j e hw ho =
    let g = get_elem?-set v ix (j / 8) (raise w o) (lt_of_get_elem? v ix e) in
    elim (Bool-cases (ix == j / 8)) [
      | inl hit ↦
          let ej : j / 8 ≡ ix = ground arith in
          let g' : get_elem? (set v ix (raise w o)) (j / 8) ≡ some (raise w o) =
            ground (arith, g, hit) in
          let old : get_elem? v (j / 8) ≡ some w = rw ej e in
          let at : (o == j % 8) ≡ (ix * 8 + o == j) = ground arith in
          rw (g', old, sym at) (test-raise w o (j % 8) hw ho (omega arith))
      | inr miss ↦
          let g' : get_elem? (set v ix (raise w o)) (j / 8) ≡ get_elem? v (j / 8) =
            ground (arith, g, miss) in
          let at : (ix * 8 + o == j) ≡ false = ground arith in rw (g', at)
    ]

pub bit_at-lower :
    (v : List ℕ) (ix o w j : ℕ)
    → get_elem? v ix ≡ some w
    → w < 256
    → o < 8
    → bit_at (set v ix (lower w o)) j ≡ (not (ix * 8 + o == j) && bit_at v j)
bit_at-lower v ix o w j e hw ho =
    let g = get_elem?-set v ix (j / 8) (lower w o) (lt_of_get_elem? v ix e) in
    elim (Bool-cases (ix == j / 8)) [
      | inl hit ↦
          let ej : j / 8 ≡ ix = ground arith in
          let g' : get_elem? (set v ix (lower w o)) (j / 8) ≡ some (lower w o) =
            ground (arith, g, hit) in
          let old : get_elem? v (j / 8) ≡ some w = rw ej e in
          let at : (o == j % 8) ≡ (ix * 8 + o == j) = ground arith in
          rw (g', old, sym at) (test-lower w o (j % 8) hw ho (omega arith))
      | inr miss ↦
          let g' : get_elem? (set v ix (lower w o)) (j / 8) ≡ get_elem? v (j / 8) =
            ground (arith, g, miss) in
          let at : (ix * 8 + o == j) ≡ false = ground arith in rw (g', at)
    ]

-- The byte of a bit below `nbits`.
pub byte_of :
    {b : Bitmap} (i : ℕ)
    → IsValid b
    → i < length b.v * 8
    → (w : ℕ) × (get_elem? b.v (i / 8) ≡ some w) × (w < 256)
byte_of {b} i h lt =
    let (w, e) = get_elem?-of_lt b.v (i / 8) (omega arith) in (w, e, h.bytes (i / 8) w e)
