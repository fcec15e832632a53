-- ===== src/Kheap/Bits.antt =====
-- kern/lib/kheap.c: the bits of `pagerefs_inuse`.
use cs325os.Base.{
  ℕ, zero, suc, ◌+◌, ◌*◌, ◌/◌, ◌%◌, ◌<◌, ◌≡◌, refl, sym, ◌∙◌, subst, ◌⊎◌, inl, inr, Bool, true,
  false, not, ltb, ◌==◌, Bool-cases, if◌then◌else◌, List, [], ◌∷◌, length, get_elem?, set, Option,
  none, some, ok, get_elem?-set, length-set, lt_of_get_elem?, get_elem?-of_lt, get_elem?-of_le,
  arith,
}
use cs325os.Kheap.Refs.{
  Word, is_full, take_bit, allocpageref, allocpageref_from, freepageref, npagerefs,
}

abbrev pub bit : Option Bool → Bool
bit none = false
bit (some b) = b

abbrev pub word_bit : Option Word → ℕ → Bool
word_bit none j = false
word_bit (some w) j = bit (get_elem? w j)

-- The bit of the reference `r`.
abbrev pub in_use : List Word → ℕ → Bool
in_use inuse r = word_bit (get_elem? inuse (r / 32)) (r % 32)

abbrev pub AllWords : List Word → Type 0
AllWords [] = Unit
AllWords (w ∷ ws) = (length w ≡ 32) × AllWords ws

-- A table of eight words.
pub record IsTable (ws : List Word) : Type 0 where
  pub words : length ws ≡ 8
  pub bits : AllWords ws

AllWords-at :
    (ws : List Word) (d : ℕ) (w : Word) → AllWords ws → get_elem? ws d ≡ some w → length w ≡ 32
AllWords-at [] d w h e = cc
AllWords-at (v ∷ ws) zero w h e = let same : v ≡ w = cc in subst (λ x. length x ≡ 32) same h.0
AllWords-at (v ∷ ws) (suc d) w h e = AllWords-at ws d w h.1 e

AllWords-set :
    (ws : List Word) (d : ℕ) (w : Word) → AllWords ws → length w ≡ 32 → AllWords (set ws d w)
AllWords-set [] d w h e = tt
AllWords-set (v ∷ ws) zero w h e = (e, h.1)
AllWords-set (v ∷ ws) (suc d) w h e = (h.0, AllWords-set ws d w h.1 e)

-- The bit `j` of the word `d`, which is `w`, is set to `b`.
abbrev turn : List Word → ℕ → Word → ℕ → Bool → List Word
turn ws d w j b = set ws d (set w j b)

module _ (ws : List Word) (d : ℕ) (w : Word) (j : ℕ) (b : Bool) where
  turn-IsTable : IsTable ws → get_elem? ws d ≡ some w → IsTable (turn ws d w j b)
  turn-IsTable t e = record {
    words = length-set ws d (set w j b) ∙ t.words;
    bits = AllWords-set ws d (set w j b) t.bits (length-set w j b ∙ AllWords-at ws d w t.bits e);
  }

  in_use-turn :
      get_elem? ws d ≡ some w
      → j < length w
      → j < 32
      → (q : ℕ) → in_use (turn ws d w j b) q ≡ (if (d * 32 + j) == q then b else in_use ws q)
  in_use-turn e lt small q =
      let outer = get_elem?-set ws d (q / 32) (set w j b) (lt_of_get_elem? ws d e) in
      let inner = get_elem?-set w j (q % 32) b lt in
      elim (Bool-cases (d == q / 32)) [
        | inl same ↦
            let at : q / 32 ≡ d = ground arith in
            elim (Bool-cases (j == q % 32)) [
              | inl hit ↦
                  let whole : ((d * 32 + j) == q) ≡ true = ground arith in
                  rw (outer, same, inner, hit, whole)
              | inr miss ↦
                  let other : ((d * 32 + j) == q) ≡ false = ground arith in
                  rw (outer, same, inner, miss, other, at, e)
            ]
        | inr miss ↦
            let other : ((d * 32 + j) == q) ≡ false = ground arith in rw (outer, miss, other)
      ]

take_bit_lem :
    (b : ℕ) (w : Word)
    → is_full w ≡ false
    → (j : ℕ) × (take_bit b w ≡ some (b + j, set w j true))
      × (j < length w)
      × (bit (get_elem? w j) ≡ false)
unfolding take_bit
take_bit_lem b [] h = cc
take_bit_lem b (false ∷ w) h =
    let none_before : b + 0 ≡ b = omega arith in (0, rw none_before, omega arith, refl)
take_bit_lem b (true ∷ w) h =
    let (j, e, lt, free) = take_bit_lem (b + 1) w h in
    let shift : b + 1 + j ≡ b + suc j = omega arith in (suc j, rw (e, shift), omega arith, free)

-- The word and the bit that `allocpageref` finds.
record Found (ws : List Word) (d : ℕ) (w : Word) (j : ℕ) : Type 0 where
  here : get_elem? ws d ≡ some w
  inside : j < length w
  free : bit (get_elem? w j) ≡ false

from_lem :
    (i : ℕ) (ws : List Word)
    → (allocpageref_from i ws ≡ ok none)
      ⊎ ((d : ℕ) × (w : Word) × (j : ℕ) × (allocpageref_from i ws
            ≡ ok (some ((i + d) * 32 + j, turn ws d w j true)))
          × Found ws d w j)
unfolding allocpageref_from
from_lem i [] = inl refl
from_lem i (w ∷ ws) = elim (Bool-cases (is_full w)) [
  | inr room ↦
      let (j, e, lt, free) = take_bit_lem 0 w room in
      let at : i + 0 ≡ i = omega arith in
      let none_before : 0 + j ≡ j = omega arith in
      inr (0, w, j, rw (room, e, none_before, at), record { here = refl; inside = lt; free = free })
  | inl full ↦ elim (from_lem (i + 1) ws) [
    | inl e ↦ inl (rw (full, e))
    | inr (d, v, j, e, f) ↦
        let at : i + 1 + d ≡ i + suc d = omega arith in
        inr (
          suc d,
          v,
          j,
          rw (full, e, at),
          record { here = f.here; inside = f.inside; free = f.free },
        )
  ]
]

-- What changes in the table when the bit of `r` becomes `b`.
pub record Turned (ws : List Word) (r : ℕ) (b : Bool) (ws' : List Word) : Type 0 where
  pub below : r < npagerefs
  pub was : in_use ws r ≡ not b
  pub now : (q : ℕ) → in_use ws' q ≡ (if r == q then b else in_use ws q)
  pub table : IsTable ws'

-- `allocpageref` returns a reference that was not in use and marks it, or NULL.
pub allocpageref_lem :
    (ws : List Word)
    → IsTable ws
    → (allocpageref ws ≡ ok none)
      ⊎ ((r : ℕ) × (ws' : List Word) × (allocpageref ws ≡ ok (some (r, ws')))
          × Turned ws r true ws')
unfolding allocpageref
allocpageref_lem ws t = elim (from_lem 0 ws) [
  | inl e ↦ inl e
  | inr (d, w, j, e, f) ↦
      let size = AllWords-at ws d w t.bits f.here in
      let small : j < 32 = omega (arith, f.inside) in
      let first : 0 + d ≡ d = omega arith in
      let few = lt_of_get_elem? ws d f.here in
      let word_at : (d * 32 + j) / 32 ≡ d = omega arith in
      let bit_at : (d * 32 + j) % 32 ≡ j = omega arith in
      inr (
        d * 32 + j,
        turn ws d w j true,
        rw (e, first),
        record {
          below = omega (arith, t.words);
          was = rw (word_at, bit_at, f.here) f.free;
          now = in_use-turn ws d w j true f.here f.inside small;
          table = turn-IsTable ws d w j true t f.here;
        },
      )
]

-- `freepageref` clears the bit of a reference in use.
pub freepageref_lem :
    (ws : List Word) (r : ℕ)
    → IsTable ws
    → in_use ws r ≡ true
    → (ws' : List Word) × (freepageref ws r ≡ ok ws') × Turned ws r false ws'
unfolding freepageref
freepageref_lem ws r t u = elim (Bool-cases (ltb r 256)) [
  | inr far ↦
      let beyond = get_elem?-of_le ws (r / 32) (ground (arith, t.words)) in
      let unset : in_use ws r ≡ false = rw beyond in cc
  | inl near ↦
      let (w, here) = get_elem?-of_lt ws (r / 32) (ground (arith, t.words)) in
      let size = AllWords-at ws (r / 32) w t.bits here in
      let inside : r % 32 < length w = omega arith in
      let (b, at) = get_elem?-of_lt w (r % 32) inside in
      let set_bit : b ≡ true = sym (rw (here, at) refl) ∙ u in
      let whole : r / 32 * 32 + r % 32 ≡ r = omega arith in
      let now = in_use-turn ws (r / 32) w (r % 32) false here inside (omega arith) in
      (
        turn ws (r / 32) w (r % 32) false,
        rw (near, here, at, set_bit),
        record {
          below = ground arith;
          was = u;
          now =
              subst
                (λ p.
                  (q : ℕ)
                  → in_use (turn ws (r / 32) w (r % 32) false) q
                    ≡ (if p == q then false else in_use ws q))
                whole now;
          table = turn-IsTable ws (r / 32) w (r % 32) false t here;
        },
      )
]
