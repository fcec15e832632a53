-- ===== src/Array/Items.antt =====
-- kern/lib/array.c: the list of items that a valid array holds.
use cs325os.Base.{
  ℕ, zero, suc, ◌+◌, ◌^◌, ◌≤◌, ◌<◌, ◌≡◌, refl, Option, none, some, ok, Block, arith, [], ◌∷◌, ◌++◌,
  take, length, replicate, get_elem?, set, get_elem?-set, length-replicate, get_elem?-take,
  get_elem?-snoc, list_ext, length-take, ap,
}
use cs325os.Array.Defs.{Array, copy_words}
use cs325os.Array.Grow.{copy_words_lem}

module _ {A : Type 0} where
  abbrev pub block : Option (Block A) → Block A
  block none = []
  block (some b) = b

  -- What a client sees: the first `num` words.
  abbrev pub items : Array A → Block A
  items a = take a.num (block a.v)

  pub record IsValid (a : Array A) : Type 0 where
    pub fits : a.num ≤ a.max
    pub backed : a.max ≤ length (block a.v)
    pub small : a.max < 2 ^ 30

  -- The copy of the items to a block with room for them.
  pub copied :
      (n : ℕ) (v : Option (Block A)) (r : ℕ)
      → n ≤ length (block v)
      → n ≤ r
      → (w : Block A) × (copy_words n 0 v (replicate r none) ≡ ok w)
        × (length w ≡ r)
        × (take n w ≡ take n (block v))
  unfolding copy_words
  copied zero none r hv hr = (replicate r none, refl, length-replicate r none, refl)
  copied (suc n) none r hv hr = absurd (omega arith)
  copied n (some b) r hv hr =
      let (w, ew, lw, gw) =
        copy_words_lem n 0 b (replicate r none) (omega arith)
          (omega (arith, length-replicate {A = Option A} r none)) in
      (
        w,
        ew,
        omega (arith, lw, length-replicate {A = Option A} r none),
        list_ext (take n w) (take n b)
            (λ j. ground (arith, gw j, get_elem?-take n w j, get_elem?-take n b j)),
      )

  pub length-items : {a : Array A} → IsValid a → length (items a) ≡ a.num
  length-items {a} v = length-take a.num (block a.v) (omega arith)

  pub take-eq-get_elem? :
      (n : ℕ) (xs ys : Block A)
      → take n xs ≡ take n ys
      → (j : ℕ) → j < n
      → get_elem? xs j ≡ get_elem? ys j
  take-eq-get_elem? n xs ys e j h =
      ground (arith, get_elem?-take n xs j, get_elem?-take n ys j, ap (λ l. get_elem? l j) e)

  pub block-some : (v : Option (Block A)) → 0 < length (block v) → v ≡ some (block v)
  block-some none h = absurd (omega arith)
  block-some (some b) h = refl

  pub snoc-items :
      (n m : ℕ) (old b : Block A) (x : A)
      → n ≤ length old
      → n < length b
      → m ≡ n + 1
      → ((j : ℕ) → j < n → get_elem? b j ≡ get_elem? old j)
      → take m (set b n (some x)) ≡ take n old ++ (some x ∷ [])
  snoc-items n m old b x ho hb em agree =
      list_ext (take m (set b n (some x))) (take n old ++ (some x ∷ [])) λ j. ground (
        arith,
        get_elem?-take m (set b n (some x)) j,
        get_elem?-set b n j (some x) hb,
        get_elem?-snoc (take n old) (some x) j,
        length-take n old ho,
        get_elem?-take n old j,
        agree j,
      )
