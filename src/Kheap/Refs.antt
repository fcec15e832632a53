-- ===== src/Kheap/Refs.antt =====
-- allocpageref and freepageref of kheap.c. A word of `pagerefs_inuse` is the list of its bits, the
-- lowest first, and a `pageref *` that is not NULL is its index in `pagerefs`.
use cs325os.Base.{
  ℕ, ◌+◌, ◌*◌, ◌/◌, ◌%◌, Bool, true, false, ◌&&◌, Option, none, some, ltb, if◌then◌else◌, List, [],
  ◌∷◌, Result, ok, panic, fault, ◌>>=◌, ◌>>◌, assert, get_elem?, set,
}

abbrev pub npagerefs : ℕ
npagerefs = 256

abbrev pub Word : Type 0
Word = List Bool

-- `w == 0xffffffff`
abbrev pub is_full : Word → Bool
is_full [] = true
is_full (b ∷ w) = b && is_full w

abbrev pub keep_bit : Bool → Option (ℕ × Word) → Option (ℕ × Word)
keep_bit b none = none
keep_bit b (some (j, w)) = some (j, b ∷ w)

-- The inner loop of `allocpageref` from the bit `j` on.
unfoldable pub take_bit : ℕ → Word → Option (ℕ × Word)
take_bit j [] = none
take_bit j (false ∷ w) = some (j, true ∷ w)
take_bit j (true ∷ w) = keep_bit true (take_bit (j + 1) w)

abbrev pub keep_word : Word → Option (ℕ × List Word) → Option (ℕ × List Word)
keep_word w none = none
keep_word w (some (p, ws)) = some (p, w ∷ ws)

-- The inner loop finds a bit, or the assertion behind it fails.
abbrev pub in_word : ℕ → List Word → Option (ℕ × Word) → Result (Option (ℕ × List Word))
in_word i ws none = panic
in_word i ws (some (j, w)) = ok (some (i * 32 + j, w ∷ ws))

-- `allocpageref` from the word `i` on: the index with the new words, or NULL.
unfoldable pub allocpageref_from : ℕ → List Word → Result (Option (ℕ × List Word))
allocpageref_from i [] = ok none
allocpageref_from i (w ∷ ws) =
    if is_full w
    then (allocpageref_from (i + 1) ws >>= λ r. ok (keep_word w r))
    else in_word i ws (take_bit 0 w)

unfoldable pub allocpageref : List Word → Result (Option (ℕ × List Word))
allocpageref inuse = allocpageref_from 0 inuse

abbrev pub in_table {ℓ} : {A : Type ℓ} → Option A → Result A
in_table none = fault
in_table (some a) = ok a

unfoldable pub freepageref : List Word → ℕ → Result (List Word)
freepageref inuse j = do
  assert (ltb j npagerefs)
  w ← in_table (get_elem? inuse (j / 32))
  b ← in_table (get_elem? w (j % 32))
  assert b
  ok (set inuse (j / 32) (set w (j % 32) false))
