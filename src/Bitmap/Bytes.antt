-- ===== src/Bitmap/Bytes.antt =====
-- kern/lib/bitmap.c: the bits of a byte, checked for every byte.

use cs325os.Base.{
  ℕ, zero, suc, ◌+◌, ◌<◌, ◌≡◌, refl, subst, inl, inr, Bool-cases, Bool, true, false, not, ◌&&◌,
  ◌||◌, ltb, ◌==◌, ltb→lt, Result, ok, panic, fault, no_fuel, arith,
}
use cs325os.Bitmap.Defs.{test, raise, lower, word_allbits, find_offset, raise_from}

abbrev same : Bool → Bool → Bool
same true b = b
same false b = not b

same→eq : (a b : Bool) → same a b ≡ true → a ≡ b
same→eq true b h = ground (arith, h)
same→eq false true h = absurd (ground (arith, h))
same→eq false false h = refl

is_false : (b : Bool) → not b ≡ true → b ≡ false
is_false true h = absurd (ground (arith, h))
is_false false h = refl

all_below : ℕ → (ℕ → Bool) → Bool
all_below zero p = true
all_below (suc n) p = p n && all_below n p

below : (n : ℕ) (p : ℕ → Bool) (x : ℕ) → all_below n p ≡ true → x < n → p x ≡ true
unfolding all_below
below zero p x h lt = absurd (omega arith)
below (suc n) p x h lt = ground (arith, below n p x)

abbrev raise_ok : ℕ → ℕ → ℕ → Bool
raise_ok w o k = same (test (raise w o) k) ((o == k) || test w k) && ltb (raise w o) 256

abbrev lower_ok : ℕ → ℕ → ℕ → Bool
lower_ok w o k = same (test (lower w o) k) (not (o == k) && test w k) && ltb (lower w o) 256

raise_table : all_below 256 (λ w. all_below 8 (λ o. all_below 8 (λ k. raise_ok w o k))) ≡ true
unfolding all_below
raise_table = refl

lower_table : all_below 256 (λ w. all_below 8 (λ o. all_below 8 (λ k. lower_ok w o k))) ≡ true
unfolding all_below
lower_table = refl

raise_entry : (w o k : ℕ) → w < 256 → o < 8 → k < 8 → raise_ok w o k ≡ true
raise_entry w o k hw ho hk =
    below 8 (λ k. raise_ok w o k) k
      (below 8 (λ o. all_below 8 (λ k. raise_ok w o k)) o
        (below 256 (λ w. all_below 8 (λ o. all_below 8 (λ k. raise_ok w o k))) w raise_table hw) ho)
      hk

lower_entry : (w o k : ℕ) → w < 256 → o < 8 → k < 8 → lower_ok w o k ≡ true
lower_entry w o k hw ho hk =
    below 8 (λ k. lower_ok w o k) k
      (below 8 (λ o. all_below 8 (λ k. lower_ok w o k)) o
        (below 256 (λ w. all_below 8 (λ o. all_below 8 (λ k. lower_ok w o k))) w lower_table hw) ho)
      hk

left : (a b : Bool) → (a && b) ≡ true → a ≡ true
left true b h = refl
left false b h = h

right : (a b : Bool) → (a && b) ≡ true → b ≡ true
right true b h = h
right false b h = absurd (ground (arith, h))

pub test-raise : (w o k : ℕ) → w < 256 → o < 8 → k < 8 → test (raise w o) k ≡ ((o == k) || test w k)
test-raise w o k hw ho hk = same→eq (test (raise w o) k) ((o == k) || test w k) (
    left (same (test (raise w o) k) ((o == k) || test w k)) (ltb (raise w o) 256)
      (raise_entry w o k hw ho hk))

pub raise-lt : (w o : ℕ) → w < 256 → o < 8 → raise w o < 256
raise-lt w o hw ho = ltb→lt (raise w o) 256 (
    right (same (test (raise w o) 0) ((o == 0) || test w 0)) (ltb (raise w o) 256)
      (raise_entry w o 0 hw ho (omega arith)))

pub test-lower :
    (w o k : ℕ) → w < 256 → o < 8 → k < 8 → test (lower w o) k ≡ (not (o == k) && test w k)
test-lower w o k hw ho hk = same→eq (test (lower w o) k) (not (o == k) && test w k) (
    left (same (test (lower w o) k) (not (o == k) && test w k)) (ltb (lower w o) 256)
      (lower_entry w o k hw ho hk))

pub lower-lt : (w o : ℕ) → w < 256 → o < 8 → lower w o < 256
lower-lt w o hw ho = ltb→lt (lower w o) 256 (
    right (same (test (lower w o) 0) (not (o == 0) && test w 0)) (ltb (lower w o) 256)
      (lower_entry w o 0 hw ho (omega arith)))

-- The bits below `n`.
abbrev pub ones_below : ℕ → ℕ → Bool
ones_below n w = all_set n
  where
    all_set : ℕ → Bool
    all_set zero = true
    all_set (suc m) = test w m && all_set m

-- What the inner loop of `bitmap_alloc` finds in a byte that is not full.
abbrev found_ok : ℕ → Result ℕ → Bool
found_ok w (ok o) = ltb o 8 && (not (test w o) && ones_below o w)
found_ok w panic = w == word_allbits
found_ok w fault = false
found_ok w no_fuel = false

find_table : all_below 256 (λ w. found_ok w (find_offset 8 0 w)) ≡ true
unfolding all_below find_offset
find_table = refl

pub find_offset_lem :
    (w : ℕ)
    → w < 256
    → (w == word_allbits) ≡ false
    → (o : ℕ) × (find_offset 8 0 w ≡ ok o) × (o < 8) × (test w o ≡ false) × (ones_below o w ≡ true)
find_offset_lem w hw open_byte =
    go (find_offset 8 0 w) refl (below 256 (λ w. found_ok w (find_offset 8 0 w)) w find_table hw)
  where
    go :
        (r : Result ℕ)
        → find_offset 8 0 w ≡ r
        → found_ok w r ≡ true
        → (o : ℕ) × (find_offset 8 0 w ≡ ok o)
          × (o < 8)
          × (test w o ≡ false)
          × (ones_below o w ≡ true)
    go (ok o) e h =
        let rest : (not (test w o) && ones_below o w) ≡ true =
          right (ltb o 8) (not (test w o) && ones_below o w) h in
        let free : not (test w o) ≡ true = left (not (test w o)) (ones_below o w) rest in
        (
          o,
          e,
          ltb→lt o 8 (left (ltb o 8) (not (test w o) && ones_below o w) h),
          is_false (test w o) free,
          right (not (test w o)) (ones_below o w) rest,
        )
    go panic e h = absurd (ground (arith, open_byte, h))
    go fault e h = absurd (ground (arith, h))
    go no_fuel e h = absurd (ground (arith, h))

full_table : all_below 8 (λ k. test 255 k) ≡ true
unfolding all_below
full_table = refl

pub test-full : (k : ℕ) → k < 8 → test 255 k ≡ true
test-full k h = below 8 (λ k. test 255 k) k full_table h

pub ones_below_lem : (n w k : ℕ) → ones_below n w ≡ true → k < n → test w k ≡ true
ones_below_lem zero w k h lt = absurd (omega arith)
ones_below_lem (suc n) w k h lt = elim (Bool-cases (k == n)) [
  | inl last ↦
      let e : n ≡ k = ground arith in
      subst (λ x. test w x ≡ true) e (left (test w n) (ones_below n w) h)
  | inr old ↦ ones_below_lem n w k (right (test w n) (ones_below n w) h) (ground arith)
]

zero_table : all_below 8 (λ k. not (test 0 k)) ≡ true
unfolding all_below
zero_table = refl

pub test-zero : (k : ℕ) → k < 8 → test 0 k ≡ false
test-zero k h = is_false (test 0 k) (below 8 (λ k. not (test 0 k)) k zero_table h)

-- The loop of `bitmap_create` sets the bits from `j` to 7.
pub raise_from_lem :
    (n j w : ℕ)
    → w < 256
    → j + n ≡ 8
    → (raise_from n j w < 256)
      × ((k : ℕ) → k < 8 → test (raise_from n j w) k ≡ (not (ltb k j) || test w k))
unfolding raise_from
raise_from_lem zero j w hw e = (hw, λ k hk. let low : ltb k j ≡ true = ground arith in rw low)
raise_from_lem (suc n) j w hw e =
    let hj : j < 8 = omega arith in
    let (lt, bits) = raise_from_lem n (j + 1) (raise w j) (raise-lt w j hw hj) (omega arith) in
    (lt, λ k hk. rw (bits k hk, test-raise w j k hw hj hk) (from_next j k (test w k)))
  where
    from_next :
        (j k : ℕ) (b : Bool) → (not (ltb k (j + 1)) || ((j == k) || b)) ≡ (not (ltb k j) || b)
    from_next j k b = ground arith
