-- ===== src/Array/Grow.antt =====
-- kern/lib/array.c: the loops that find a new size and copy the old words.
use native.Mathlib.Nat.{pow-suc}
use cs325os.Base.{
  ℕ, zero, suc, ◌+◌, ◌*◌, ◌^◌, ◌≤◌, ◌<◌, ◌≡◌, refl, ◌⊎◌, inl, inr, ◌&&◌, some, ltb, leb,
  if◌then◌else◌, ok, Block, Bool-cases, arith, length, get_elem?, set, length-set, get_elem?-set,
  get_elem?-of_lt,
}
use cs325os.Array.Defs.{grow_max, copy_words, move_down}

-- What the loop for the new size may return.
pub record Grown (nguys old r : ℕ) : Type 0 where
  pub enough : nguys ≤ r
  pub kept : old ≤ r
  pub small : (r ≡ old) ⊎ (r ≤ 2 * nguys)

pub grow_max-Grown :
    (f nguys m : ℕ)
    → nguys < 2 ^ 30
    → nguys + 2 ≤ (m + 2) * 2 ^ f
    → (r : ℕ) × (grow_max (suc f) nguys m ≡ ok r) × Grown nguys m r
unfolding grow_max
grow_max-Grown zero nguys m h fuel = (m, ground arith, ground arith)
grow_max-Grown (suc f) nguys m h fuel = elim (Bool-cases (ltb m nguys)) [
  | inl more ↦
      let (r, e, g) = grow_max-Grown f nguys ((m + 1) * 2) h (grind (arith, pow-suc 2 f)) in
      (r, ground (arith, e), ground (arith, g))
  | inr done ↦ (m, rw done, ground arith)
]

-- `copy_words` fills the new block from the place `i` on, and nothing else of it.
pub copy_words_lem {ℓ} :
    {A : Type ℓ} (n i : ℕ) (b newv : Block A)
    → i + n ≤ length b
    → i + n ≤ length newv
    → (w : Block A) × (copy_words n i (some b) newv ≡ ok w)
      × (length w ≡ length newv)
      × ((j : ℕ)
          → get_elem? w j ≡ (if leb i j && ltb j (i + n) then get_elem? b j else get_elem? newv j))
unfolding copy_words
copy_words_lem zero i b newv hb hn = (newv, refl, refl, λ j. ground arith)
copy_words_lem (suc n) i b newv hb hn =
    let (x, ex) = get_elem?-of_lt b i (omega arith) in
    let (w, ew, lw, gw) =
      copy_words_lem n (i + 1) b (set newv i x) (omega arith)
        (omega (arith, length-set newv i x)) in
    (
      w,
      ground (arith, ex, ew),
      omega (arith, lw, length-set newv i x),
      λ j. ground (arith, gw j, ex, get_elem?-set newv i j x),
    )

-- `move_down` shifts the words at `i + 1` up to `i + n` down by one place.
pub move_down_lem {ℓ} :
    {A : Type ℓ} (n i : ℕ) (v : Block A)
    → i + n < length v
    → (w : Block A) × (move_down n i v ≡ ok w)
      × (length w ≡ length v)
      × ((j : ℕ)
          → get_elem? w j
            ≡ (if leb i j && ltb j (i + n) then get_elem? v (suc j) else get_elem? v j))
unfolding move_down
move_down_lem zero i v h = (v, refl, refl, λ j. ground arith)
move_down_lem (suc n) i v h =
    let (x, ex) = get_elem?-of_lt v (i + 1) (omega arith) in
    let (w, ew, lw, gw) = move_down_lem n (i + 1) (set v i x) (omega (arith, length-set v i x)) in
    (
      w,
      ground (arith, ex, ew),
      omega (arith, lw, length-set v i x),
      λ j. ground (
        arith,
        gw j,
        ex,
        get_elem?-set v i j x (omega arith),
        get_elem?-set v i (suc j) x (omega arith),
      ),
    )
