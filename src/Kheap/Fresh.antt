-- ===== src/Kheap/Fresh.antt =====
-- kern/lib/kheap.c: the free list of a fresh page.
use cs325os.Base.{
  ℕ, zero, suc, ◌+◌, ◌-◌, ◌*◌, ◌%◌, ◌≤◌, ◌<◌, ◌≡◌, refl, ap, ◌∙◌, subst, ◌⊎◌, inl, inr, true, false,
  ◌==◌, Bool-cases, List, [], ◌∷◌, length, ok, arith,
}
use cs325os.Ram.{word}
use cs325os.Kheap.Defs.{put, link, size_at}
use cs325os.Kheap.Sizes.{blocks_at, block-Inside, blocks-Apart, blocks_fill}
use cs325os.Kheap.Chain.{has, has-lt, AllBelow, Unique, Links, Links-frame}

-- The numbers below `n`, the largest first.
abbrev pub down : ℕ → List ℕ
down zero = []
down (suc n) = n ∷ down n

AllBelow-more : (m n : ℕ) (ks : List ℕ) → m ≤ n → AllBelow m ks → AllBelow n ks
AllBelow-more m n [] le b = tt
AllBelow-more m n (k ∷ ks) le b = (omega (arith, b.0), AllBelow-more m n ks le b.1)

pub down-AllBelow : (n : ℕ) → AllBelow n (down n)
down-AllBelow zero = tt
down-AllBelow (suc n) =
    (omega arith, AllBelow-more n (suc n) (down n) (omega arith) (down-AllBelow n))

pub down-Unique : (n : ℕ) → Unique (down n)
down-Unique zero = tt
down-Unique (suc n) = (
  elim (Bool-cases (has n (down n))) [
    | inl e ↦ let lt = has-lt n (down n) n (down-AllBelow n) e in absurd (omega arith)
    | inr e ↦ e
  ],
  down-Unique n,
)

pub length-down : (n : ℕ) → length (down n) ≡ n
length-down zero = refl
length-down (suc n) = ap suc (length-down n)

pub has-down : (n k : ℕ) → k < n → has k (down n) ≡ true
has-down zero k lt = absurd (omega arith)
has-down (suc n) k lt = elim (Bool-cases (n == k)) [
  | inl e ↦ rw e
  | inr e ↦ rw e (has-down n k (ground arith))
]

-- The memory outside of the page at `page` is as before.
abbrev pub Outside : ℕ → (ℕ → ℕ) → (ℕ → ℕ) → Type 0
Outside page mem mem' = (x : ℕ) → (x < page) ⊎ (page + 4096 ≤ x) → mem' x ≡ mem x

pub put-Outside :
    (page : ℕ) (mem : ℕ → ℕ) (a v : ℕ) → page ≤ a → a < page + 4096 → Outside page mem (put mem a v)
put-Outside page mem a v le lt x o = let miss : (a == x) ≡ false = ground arith in rw miss

link_step :
    (n i fla size last fl next : ℕ) (mem : ℕ → ℕ)
    → (fla + i * size) % word ≡ fl
    → (fla + (i - 1) * size) % word ≡ next
    → (fl == next) ≡ false
    → link (suc n) i fla size last mem ≡ link n (i + 1) fla size fl (put mem fl next)
unfolding link
link_step n i fla size last fl next mem here there differ = rw (here, there, differ)

module _ (b : ℕ) (typed : b < 8) (page : ℕ) (low : 0 < page) (high : page + 4096 < word) where
  -- The loop links the blocks from `suc i` on to those below.
  pub link_lem :
      (n i : ℕ) (mem : ℕ → ℕ)
      → suc i + n ≡ blocks_at b
      → Links mem page (size_at b) (down (suc i))
      → (mem' : ℕ → ℕ) × (link n (suc i) page (size_at b) (page + i * size_at b) mem
          ≡ ok (page + (blocks_at b - 1) * size_at b, mem'))
        × Links mem' page (size_at b) (down (blocks_at b))
        × Outside page mem mem'
  unfolding link
  link_lem zero i mem e links =
      let all : suc i ≡ blocks_at b = omega arith in
      let last : i ≡ blocks_at b - 1 = omega arith in
      (mem, rw last, subst (λ n. Links mem page (size_at b) (down n)) all links, λ x o. refl)
  link_lem (suc n) i mem e links =
      let fit = block-Inside b typed (suc i) (omega arith) in
      let less = block-Inside b typed i (omega arith) in
      let least = (blocks_fill b typed).3 in
      let here : (page + suc i * size_at b) % word ≡ page + suc i * size_at b = omega arith in
      let one_less : suc i - 1 ≡ i = omega arith in
      let in_page : (page + i * size_at b) % word ≡ page + i * size_at b = omega arith in
      let there : (page + (suc i - 1) * size_at b) % word ≡ page + i * size_at b =
        rw one_less in_page in
      let step = blocks-Apart b typed (suc i) i (omega arith) in
      let differ : (page + suc i * size_at b == page + i * size_at b) ≡ false = ground arith in
      let next : suc i + 1 ≡ suc (suc i) = omega arith in
      let mem1 = put mem (page + suc i * size_at b) (page + i * size_at b) in
      let self : (page + suc i * size_at b == page + suc i * size_at b) ≡ true = ground arith in
      let agree : (k : ℕ)
          → has k (down (suc i)) ≡ true
          → mem1 (page + k * size_at b) ≡ mem (page + k * size_at b) =
        λ k there_is.
          let lt = has-lt (suc i) (down (suc i)) k (down-AllBelow (suc i)) there_is in
          let away = blocks-Apart b typed (suc i) k (omega arith) in
          let miss : (page + suc i * size_at b == page + k * size_at b) ≡ false = ground arith in
          rw miss in
      let links1 : Links mem1 page (size_at b) (down (suc (suc i))) =
        (rw self, Links-frame mem mem1 page (size_at b) (down (suc i)) agree links) in
      let (mem', ran, all, out) = link_lem n (suc i) mem1 (omega arith) links1 in
      (
        mem',
        link_step n (suc i) page (size_at b) (page + i * size_at b) (page + suc i * size_at b)
              (page + i * size_at b) mem here there differ
            ∙ ap (λ j. link n j page (size_at b) (page + suc i * size_at b) mem1) next
            ∙ ran,
        all,
        λ x o.
            out x o
            ∙ put-Outside page mem (page + suc i * size_at b) (page + i * size_at b) (omega arith)
                (omega arith) x o,
      )
