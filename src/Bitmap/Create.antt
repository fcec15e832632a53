-- ===== src/Bitmap/Create.antt =====
-- kern/lib/bitmap.c: bitmap_create.
use cs325os.Base.{
  ℕ, zero, suc, ◌+◌, ◌-◌, ◌*◌, ◌/◌, ◌%◌, ◌^◌, ◌<◌, ◌≡◌, refl, ◌⊎◌, inl, inr, Bool, true, false, not,
  ◌&&◌, none, some, ltb, ◌==◌, List, ok, Bool-cases, arith, length, set, replicate, get_elem?,
  get_elem?-set, lt_of_get_elem?, length-set, length-replicate,
}
use cs325os.Bitmap.Defs.{Bitmap, words_of, test, raise_from, mark_rest, create}
use cs325os.Bitmap.Bytes.{test-zero, raise_from_lem}
use cs325os.Bitmap.Bits.{IsValid, bit_at}

-- Every bit below `n` is clear.
abbrev pub clear_below : ℕ → List ℕ → Bool
clear_below zero v = true
clear_below (suc n) v = not (bit_at v n) && clear_below n v

clear_below_of :
    (n : ℕ) (v : List ℕ) → ((j : ℕ) → j < n → bit_at v j ≡ false) → clear_below n v ≡ true
clear_below_of zero v h = refl
clear_below_of (suc n) v h = rw (h n (omega arith), clear_below_of n v (λ j lt. h j (omega arith)))

get_elem?-replicate : (n i : ℕ) → i < n → get_elem? {A = ℕ} (replicate n 0) i ≡ some 0
get_elem?-replicate zero i h = absurd (omega arith)
get_elem?-replicate (suc n) zero h = refl
get_elem?-replicate (suc n) (suc i) h = get_elem?-replicate n i (omega arith)

-- `b` is a fresh bitmap of `nbits` bits.
abbrev pub Made : ℕ → Bitmap → Type 0
Made nbits b = IsValid b × (b.nbits ≡ nbits) × (clear_below nbits b.v ≡ true)

-- No bit is left over.
even_Made :
    (nbits : ℕ)
    → nbits < 2 ^ 32 - 8
    → nbits % 8 ≡ 0
    → Made nbits (record { nbits = nbits; v = replicate ((nbits + 7) / 8) 0 })
even_Made nbits small e =
    let n = (nbits + 7) / 8 in
    let len = length-replicate {A = ℕ} n 0 in
    (
      record {
        small = small;
        size = len;
        bytes = λ ix w ew.
            let lt : ix < n = omega (arith, lt_of_get_elem? {A = ℕ} (replicate n 0) ix ew, len) in
            let z : 0 ≡ w = ground (arith, get_elem?-replicate n ix lt, ew) in omega arith;
        rest = λ i ge lt. absurd (omega (arith, len));
      },
      refl,
      clear_below_of nbits (replicate n 0) (λ j lt.
          rw (get_elem?-replicate n (j / 8) (omega arith)) (test-zero (j % 8) (omega arith))),
    )

-- The last byte is `w`.
odd_Made :
    (nbits w : ℕ)
    → nbits < 2 ^ 32 - 8
    → 0 < nbits % 8
    → w < 256
    → ((k : ℕ) → k < 8 → test w k ≡ not (ltb k (nbits % 8)))
    → Made nbits (record { nbits = nbits; v = set (replicate ((nbits + 7) / 8) 0) (nbits / 8) w })
odd_Made nbits w small odd hw bits =
    let n = (nbits + 7) / 8 in
    let zeros : List ℕ = replicate n 0 in
    let len = length-replicate {A = ℕ} n 0 in
    let inside : nbits / 8 < length zeros = omega (arith, len) in
    let last : get_elem? (set zeros (nbits / 8) w) (nbits / 8) ≡ some w =
      ground (arith, get_elem?-set zeros (nbits / 8) (nbits / 8) w inside) in
    let at : (j : ℕ)
        → j / 8 ≡ nbits / 8
        → bit_at (set zeros (nbits / 8) w) j ≡ not (ltb (j % 8) (nbits % 8)) =
      λ j ej. rw (ej, last) (bits (j % 8) (omega arith)) in
    (
      record {
        small = small;
        size = omega (arith, length-set zeros (nbits / 8) w, len);
        bytes = λ ix x ex. elim (Bool-cases (nbits / 8 == ix)) [
          | inl hit ↦
              let same : w ≡ x =
                ground (arith, get_elem?-set zeros (nbits / 8) ix w inside, ex, hit) in
              omega arith
          | inr miss ↦
              let old : get_elem? zeros ix ≡ some x =
                ground (arith, get_elem?-set zeros (nbits / 8) ix w inside, ex, miss) in
              let lt : ix < n = omega (arith, lt_of_get_elem? zeros ix old, len) in
              let z : 0 ≡ x = ground (arith, get_elem?-replicate n ix lt, old) in omega arith
        ];
        rest = λ i ge lt.
            let ei : i / 8 ≡ nbits / 8 = omega (arith, lt, length-set zeros (nbits / 8) w, len) in
            let high : ltb (i % 8) (nbits % 8) ≡ false = ground arith in
            let a = at i ei in ground (arith, a, high);
      },
      refl,
      clear_below_of nbits (set zeros (nbits / 8) w) (λ j lt.
          elim (Bool-cases (nbits / 8 == j / 8)) [
            | inl hit ↦
                let ej : j / 8 ≡ nbits / 8 = ground arith in
                let low : ltb (j % 8) (nbits % 8) ≡ true = ground arith in
                let a = at j ej in ground (arith, a, low)
            | inr miss ↦
                let old : get_elem? (set zeros (nbits / 8) w) (j / 8) ≡ some 0 = ground (
                  arith,
                  get_elem?-set zeros (nbits / 8) (j / 8) w inside,
                  miss,
                  get_elem?-replicate n (j / 8) (omega arith),
                ) in
                rw old (test-zero (j % 8) (omega arith))
          ]),
    )

mark_rest_even :
    (nbits : ℕ) (v : List ℕ) → nbits % 8 ≡ 0 → mark_rest nbits ((nbits + 7) / 8) v ≡ ok v
unfolding mark_rest
mark_rest_even nbits v e =
    let same : ltb (nbits / 8) ((nbits + 7) / 8) ≡ false = ground arith in rw same

mark_rest_odd :
    (nbits w : ℕ) (v : List ℕ)
    → 0 < nbits % 8
    → get_elem? v (nbits / 8) ≡ some w
    → mark_rest nbits ((nbits + 7) / 8) v
      ≡ ok (set v (nbits / 8) (raise_from (8 - nbits % 8) (nbits % 8) w))
unfolding mark_rest
mark_rest_odd nbits w v odd e =
    let more : ltb (nbits / 8) ((nbits + 7) / 8) ≡ true = ground arith in
    let last : (nbits + 7) / 8 - 1 ≡ nbits / 8 = omega arith in
    let over : nbits - nbits / 8 * 8 ≡ nbits % 8 = omega arith in
    let is_last : (nbits / 8 == nbits / 8) ≡ true = ground arith in
    let positive : ltb 0 (nbits % 8) ≡ true = ground arith in
    let partial : ltb (nbits % 8) 8 ≡ true = ground arith in
    rw (more, last, over, is_last, positive, partial, e)

make_bits :
    (nbits : ℕ)
    → nbits < 2 ^ 32 - 8
    → (v : List ℕ) × (mark_rest nbits ((nbits + 7) / 8) (replicate ((nbits + 7) / 8) 0) ≡ ok v)
      × Made nbits (record { nbits = nbits; v = v })
make_bits nbits small = elim (Bool-cases (nbits % 8 == 0)) [
  | inl even ↦
      let e : nbits % 8 ≡ 0 = ground arith in
      (
        replicate ((nbits + 7) / 8) 0,
        mark_rest_even nbits (replicate ((nbits + 7) / 8) 0) e,
        even_Made nbits small e,
      )
  | inr odd ↦
      let p : 0 < nbits % 8 = ground arith in
      let n = (nbits + 7) / 8 in
      let (lt, bits) = raise_from_lem (8 - nbits % 8) (nbits % 8) 0 (omega arith) (omega arith) in
      let w = raise_from (8 - nbits % 8) (nbits % 8) 0 in
      (
        set (replicate n 0) (nbits / 8) w,
        mark_rest_odd nbits 0 (replicate n 0) p (get_elem?-replicate n (nbits / 8) (omega arith)),
        odd_Made nbits w small p lt
            (λ k hk. let z = test-zero k hk in ground (arith, bits k hk, z)),
      )
]

-- For a number of bits below 2 ^ 32 - 8, `bitmap_create` makes a bitmap with every bit clear, or
-- returns NULL because memory is short. Its assertions hold.
pub create-Made :
    (room : ℕ → Bool) (nbits : ℕ)
    → nbits < 2 ^ 32 - 8
    → ((b : Bitmap) × (create room nbits ≡ ok (some b)) × Made nbits b)
      ⊎ ((n : ℕ) × (room n ≡ false) × (create room nbits ≡ ok none))
unfolding create
create-Made room nbits small =
    let words : words_of nbits ≡ (nbits + 7) / 8 = omega arith in
    let (v, e, m) = make_bits nbits small in
    elim (Bool-cases (room 8)) [
      | inl has ↦ elim (Bool-cases (room (words_of nbits))) [
        | inl has' ↦ inl (record { nbits = nbits; v = v }, rw (has, has') (rw (words, e)), m)
        | inr out ↦ inr (words_of nbits, out, rw (has, out))
      ]
      | inr out ↦ inr (8, out, rw out)
    ]
