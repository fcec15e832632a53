-- ===== src/Kheap/Chain.antt =====
-- kern/lib/kheap.c: the free list of a page, as the numbers of its blocks.
use cs325os.Base.{
  ℕ, zero, suc, ◌+◌, ◌*◌, ◌≤◌, ◌<◌, ◌≡◌, refl, ◌∙◌, subst, ◌⊎◌, inl, inr, Bool, true, false, ◌==◌,
  Bool-cases, if◌then◌else◌, List, [], ◌∷◌, length, arith,
}
use cs325os.Kheap.Defs.{invalid_offset, unlink}

-- The address of the first of the blocks `ks`, or NULL.
abbrev pub head_at : ℕ → ℕ → List ℕ → ℕ
head_at page s [] = 0
head_at page s (k ∷ ks) = page + k * s

abbrev pub offset_of : ℕ → List ℕ → ℕ
offset_of s [] = invalid_offset
offset_of s (k ∷ ks) = k * s

-- The first word of each block holds the address of the next.
abbrev pub Links : (ℕ → ℕ) → ℕ → ℕ → List ℕ → Type 0
Links mem page s [] = Unit
Links mem page s (k ∷ ks) = (mem (page + k * s) ≡ head_at page s ks) × Links mem page s ks

abbrev pub AllBelow : ℕ → List ℕ → Type 0
AllBelow n [] = Unit
AllBelow n (k ∷ ks) = (k < n) × AllBelow n ks

abbrev pub has : ℕ → List ℕ → Bool
has k [] = false
has k (j ∷ js) = if j == k then true else has k js

-- No number stands in the list twice.
abbrev pub Unique : List ℕ → Type 0
Unique [] = Unit
Unique (k ∷ ks) = (has k ks ≡ false) × Unique ks

pub has-lt : (n : ℕ) (ks : List ℕ) (k : ℕ) → AllBelow n ks → has k ks ≡ true → k < n
has-lt n [] k h e = absurd (ground (arith, e))
has-lt n (j ∷ ks) k h e = ground (arith, has-lt n ks k h.1)

-- A memory that agrees at the blocks has the same links.
pub Links-frame :
    (mem mem' : ℕ → ℕ) (page s : ℕ) (ks : List ℕ)
    → ((k : ℕ) → has k ks ≡ true → mem' (page + k * s) ≡ mem (page + k * s))
    → Links mem page s ks
    → Links mem' page s ks
Links-frame mem mem' page s [] agree l = tt
Links-frame mem mem' page s (k ∷ ks) agree l = (
  agree k (ground arith) ∙ l.0,
  Links-frame mem mem' page s ks (λ j e. agree j (ground (arith, e))) l.1,
)

pub has-unlink_miss : (k : ℕ) (ks : List ℕ) (j : ℕ) → has j ks ≡ false → has j (unlink k ks) ≡ false
unfolding unlink
has-unlink_miss k [] j h = refl
has-unlink_miss k (i ∷ ks) j h = ground (arith, has-unlink_miss k ks j)

pub length-unlink : (k : ℕ) (ks : List ℕ) → length ks ≤ suc (length (unlink k ks))
unfolding unlink
length-unlink k [] = omega arith
length-unlink k (i ∷ ks) = ground (arith, length-unlink k ks)

pub Unique-unlink : (k : ℕ) (ks : List ℕ) → Unique ks → Unique (unlink k ks)
unfolding unlink
Unique-unlink k [] u = tt
Unique-unlink k (i ∷ ks) u = elim (Bool-cases (i == k)) [
  | inl e ↦ rw e u.1
  | inr e ↦ rw e (has-unlink_miss k ks i u.0, Unique-unlink k ks u.1)
]

AllBelow_lem : (n : ℕ) (ks : List ℕ) → has n ks ≡ false → AllBelow (suc n) ks → AllBelow n ks
AllBelow_lem n [] h b = tt
AllBelow_lem n (i ∷ ks) h b = (ground (arith, b.0), AllBelow_lem n ks (ground arith) b.1)

pub AllBelow-unlink :
    (n : ℕ) (ks : List ℕ) → Unique ks → AllBelow (suc n) ks → AllBelow n (unlink n ks)
unfolding unlink
AllBelow-unlink n [] u b = tt
AllBelow-unlink n (i ∷ ks) u b = elim (Bool-cases (i == n)) [
  | inl e ↦
      let at : i ≡ n = ground arith in
      rw e (AllBelow_lem n ks (subst (λ x. has x ks ≡ false) at u.0) b.1)
  | inr e ↦ rw e (ground (arith, b.0), AllBelow-unlink n ks u.1 b.1)
]

-- There are at most `n` different numbers below `n`.
pub Unique-bound : (n : ℕ) (ks : List ℕ) → Unique ks → AllBelow n ks → length ks ≤ n
Unique-bound zero [] u b = omega arith
Unique-bound zero (k ∷ ks) u b = absurd (omega (arith, b.0))
Unique-bound (suc n) ks u b = omega (
  arith,
  length-unlink n ks,
  Unique-bound n (unlink n ks) (Unique-unlink n ks u) (AllBelow-unlink n ks u b),
)

-- A list of as many different numbers below `n` has them all.
pub has_all :
    (n : ℕ) (ks : List ℕ) (j : ℕ)
    → Unique ks
    → AllBelow n ks
    → length ks ≡ n
    → j < n
    → has j ks ≡ true
has_all n ks j u b e lt = elim (Bool-cases (has j ks)) [
  | inl found ↦ found
  | inr miss ↦
      let more : suc (length ks) ≤ n = Unique-bound n (j ∷ ks) (miss, u) (lt, b) in
      absurd (omega (arith, e))
]

pub list_cases : (ks : List ℕ) → (ks ≡ []) ⊎ ((j : ℕ) × (js : List ℕ) × (ks ≡ j ∷ js))
list_cases [] = inl refl
list_cases (k ∷ ks) = inr (k, ks, refl)
