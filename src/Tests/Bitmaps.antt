-- ===== src/Tests/Bitmaps.antt =====
-- kern/lib/bitmap.c on concrete bitmaps.
use cs325os.Base.{
  ℕ, zero, suc, ◌<◌, ◌≡◌, refl, subst, ◌⊎◌, Bool, true, false, not, ◌&&◌, ◌==◌, none, some, [], ◌∷◌,
  ok, panic, arith, get_elem?,
}
use cs325os.Bitmap
use cs325os.Bitmap.{Bitmap}
use cs325os.Bitmap.Bits.{IsValid, bit_at}
use cs325os.Bitmap.Mark.{unmark-bit_at}
use cs325os.Bitmap.Alloc.{Allocated, alloc-Allocated}
use cs325os.Bitmap.Create.{Made, create-Made}

abbrev always : ℕ → Bool
always n = true

-- Of 15 bits only the bit 9 is clear.
abbrev nearly_full : Bitmap
nearly_full = record { nbits = 15; v = 255 ∷ 253 ∷ [] }

nearly_full-bytes : (ix w : ℕ) → get_elem? nearly_full.v ix ≡ some w → w < 256
nearly_full-bytes zero w e = let a : 255 ≡ w = cc in omega arith
nearly_full-bytes (suc zero) w e = let a : 253 ≡ w = cc in omega arith
nearly_full-bytes (suc (suc k)) w e = cc

nearly_full-IsValid : IsValid nearly_full
nearly_full-IsValid = record {
  small = omega arith;
  size = refl;
  bytes = nearly_full-bytes;
  rest =
      λ i ge lt. let e : 15 ≡ i = omega arith in subst (λ x. bit_at nearly_full.v x ≡ true) e refl;
}

alloc_last : Bitmap.alloc nearly_full ≡ ok ((0, 9), record { nbits = 15; v = 255 ∷ 255 ∷ [] })
unfolding Bitmap.alloc Bitmap.alloc_from Bitmap.find_offset
alloc_last = refl

create_ten : Bitmap.create always 10 ≡ ok (some (record { nbits = 10; v = 0 ∷ 252 ∷ [] }))
unfolding Bitmap.create Bitmap.mark_rest Bitmap.raise_from
create_ten = refl

alloc-Allocated_example : Allocated nearly_full
alloc-Allocated_example = alloc-Allocated nearly_full-IsValid

unmark-bit_at_example :
    ((bit_at nearly_full.v 3 ≡ false) × (Bitmap.unmark nearly_full 3 ≡ panic))
    ⊎ ((b' : Bitmap) × (bit_at nearly_full.v 3 ≡ true)
        × (Bitmap.unmark nearly_full 3 ≡ ok b')
        × IsValid b'
        × ((j : ℕ) → bit_at b'.v j ≡ (not (3 == j) && bit_at nearly_full.v j)))
unmark-bit_at_example = unmark-bit_at 3 nearly_full-IsValid (omega arith)

create-Made_example :
    ((b : Bitmap) × (Bitmap.create always 10 ≡ ok (some b)) × Made 10 b)
    ⊎ ((n : ℕ) × (always n ≡ false) × (Bitmap.create always 10 ≡ ok none))
create-Made_example = create-Made always 10 (omega arith)
