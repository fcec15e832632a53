-- ===== src/Kheap/Blocks.antt =====
-- kern/lib/kheap.c: how the set of the blocks given out changes with the lists of free blocks.
use cs325os.Base.{
  ℕ, ◌+◌, ◌*◌, ◌≤◌, ◌<◌, ◌≡◌, ◌≢◌, refl, sym, ap, ◌∙◌, subst, ◌⊎◌, inl, inr, true, false, ◌==◌,
  Bool-cases, List, ◌∷◌, arith,
}
use cs325os.Kheap.Defs.{put}
use cs325os.Kheap.Sizes.{block-Inside, blocks-Apart, blocks_fill}
use cs325os.Kheap.Chain.{has}
use cs325os.Kheap.Inv.{page_of, type_of, size_of, blocks_of, block_at, PagesApart, Given}

pub put_here : {A : Type 0} (f : ℕ → A) (r : ℕ) (a : A) → put f r a r ≡ a
put_here f r a = let same : (r == r) ≡ true = ground arith in rw same

pub put_there :
    {A : Type 0} (f : ℕ → A) (r : ℕ) (a : A) (q : ℕ) → (r == q) ≡ false → put f r a q ≡ f q
put_there f r a q e = rw e

pub same_ref : (r q : ℕ) → (r == q) ≡ true → q ≡ r
same_ref r q e = ground arith

pub differs : (r q : ℕ) → (r == q) ≡ false → r ≢ q
differs r q e = ground arith

-- Two stretches of memory do not meet.
abbrev pub Disjoint : ℕ → ℕ → ℕ → ℕ → Type 0
Disjoint a s a' s' = (a + s ≤ a') ⊎ (a' + s' ≤ a)

-- The blocks of two pages do not meet.
far_lem :
    (v w k j : ℕ)
    → page_of v ≢ page_of w
    → k * size_of v + size_of v ≤ 4096
    → j * size_of w + size_of w ≤ 4096
    → Disjoint (block_at v k) (size_of v) (block_at w j) (size_of w)
far_lem v w k j ne i i' = ground arith

near_lem :
    (v k j : ℕ)
    → type_of v < 8
    → k ≢ j
    → Disjoint (block_at v k) (size_of v) (block_at v j) (size_of v)
near_lem v k j typed ne = elim (blocks-Apart (type_of v) typed k j ne) [
  | inl h ↦ inl (omega arith)
  | inr h ↦ inr (omega arith)
]

module _ (pab : ℕ → ℕ) (l : List ℕ) (apart : PagesApart pab l)
    (typed : (r : ℕ) → has r l ≡ true → type_of (pab r) < 8) where
  -- Different blocks do not meet.
  pub blocks-Disjoint :
      (r q k j : ℕ)
      → has r l ≡ true
      → has q l ≡ true
      → k < blocks_of (pab r)
      → j < blocks_of (pab q)
      → (r ≢ q) ⊎ (k ≢ j)
      → Disjoint (block_at (pab r) k) (size_of (pab r)) (block_at (pab q) j) (size_of (pab q))
  blocks-Disjoint r q k j lr lq ik ij ne =
      let inside_r = block-Inside (type_of (pab r)) (typed r lr) k ik in
      let inside_q = block-Inside (type_of (pab q)) (typed q lq) j ij in
      elim (Bool-cases (r == q)) [
        | inr e ↦ far_lem (pab r) (pab q) k j (apart r q lr lq (ground arith)) inside_r inside_q
        | inl e ↦
            let same : r ≡ q = ground arith in
            let other : k ≢ j = ground arith in
            subst
              (λ x.
                Disjoint (block_at (pab r) k) (size_of (pab r)) (block_at (pab x) j)
                  (size_of (pab x)))
              same (near_lem (pab r) k j (typed r lr) other)
      ]

  same_block :
      (r q k j : ℕ)
      → has r l ≡ true
      → has q l ≡ true
      → k < blocks_of (pab r)
      → j < blocks_of (pab q)
      → block_at (pab r) k ≡ block_at (pab q) j
      → (r ≡ q) × (k ≡ j)
  same_block r q k j lr lq ik ij e =
      let least_r = (blocks_fill (type_of (pab r)) (typed r lr)).3 in
      let least_q = (blocks_fill (type_of (pab q)) (typed q lq)).3 in
      let clash : ((r ≢ q) ⊎ (k ≢ j)) → ⊥ = λ ne. elim (blocks-Disjoint r q k j lr lq ik ij ne) [
        | inl h ↦ omega arith
        | inr h ↦ omega arith
      ] in
      elim (Bool-cases (r == q)) [
        | inr ne ↦ absurd (clash (inl (ground arith)))
        | inl same ↦ elim (Bool-cases (k == j)) [
          | inr ne ↦ absurd (clash (inr (ground arith)))
          | inl both ↦ (ground arith, ground arith)
        ]
      ]

  -- Two blocks that are given out do not meet.
  pub Given-Disjoint :
      {free : ℕ → List ℕ} {a s a' s' : ℕ}
      → Given pab l free a s
      → Given pab l free a' s'
      → a ≢ a'
      → Disjoint a s a' s'
  Given-Disjoint {a = a} {s} {a'} {s'} g g' ne =
      let other : (g.ref ≢ g'.ref) ⊎ (g.block ≢ g'.block) = elim (Bool-cases (g.ref == g'.ref)) [
        | inr e ↦ inl (ground arith)
        | inl e ↦ elim (Bool-cases (g.block == g'.block)) [
          | inr d ↦ inr (ground arith)
          | inl d ↦
              let same : g.ref ≡ g'.ref = ground arith in
              let both : g.block ≡ g'.block = ground arith in
              absurd (
                ne (
                  g.at
                  ∙ ap (λ x. block_at (pab x) g.block) same
                  ∙ ap (block_at (pab g'.ref)) both
                  ∙ sym g'.at))
        ]
      ] in
      subst (λ x. Disjoint x s a' s') (sym g.at)
        (subst (λ x. Disjoint (block_at (pab g.ref) g.block) x a' s') (sym g.bytes)
          (subst (λ x. Disjoint (block_at (pab g.ref) g.block) (size_of (pab g.ref)) x s')
            (sym g'.at)
            (subst
              (λ x.
                Disjoint (block_at (pab g.ref) g.block) (size_of (pab g.ref))
                  (block_at (pab g'.ref) g'.block) x)
              (sym g'.bytes)
              (blocks-Disjoint g.ref g'.ref g.block g'.block g.listed g'.listed g.inside g'.inside
                other))))

retaken :
    {pab : ℕ → ℕ} {l : List ℕ} {f f' : ℕ → List ℕ} {a s : ℕ} (g : Given pab l f a s)
    → has g.block (f' g.ref) ≡ false
    → Given pab l f' a s
retaken g e = record {
  ref = g.ref;
  block = g.block;
  listed = g.listed;
  inside = g.inside;
  taken = e;
  at = g.at;
  bytes = g.bytes;
}

-- The pages `l` with one more free block in `f` than in `f'`.
module _ (pab : ℕ → ℕ) (l : List ℕ) (f f' : ℕ → List ℕ) (r k : ℕ) (ks : List ℕ)
    (more : f r ≡ k ∷ ks) (less : f' r ≡ ks)
    (others : (q : ℕ) → (r == q) ≡ false → f' q ≡ f q) where
  -- What is given out with fewer free blocks.
  pub Given-take :
      {a s : ℕ}
      → Given pab l f' a s
      → Given pab l f a s ⊎ ((a ≡ block_at (pab r) k) × (s ≡ size_of (pab r)))
  Given-take {a} {s} g = elim (Bool-cases (r == g.ref)) [
    | inr e ↦ inl (retaken g (ap (has g.block) (sym (others g.ref e)) ∙ g.taken))
    | inl e ↦
        let same : g.ref ≡ r = ground arith in
        let out : has g.block ks ≡ false =
          ap (has g.block) (sym less) ∙ ap (λ q. has g.block (f' q)) (sym same) ∙ g.taken in
        elim (Bool-cases (k == g.block)) [
          | inl hit ↦
              let at : g.block ≡ k = ground arith in
              inr (
                g.at ∙ ap (λ q. block_at (pab q) g.block) same ∙ ap (block_at (pab r)) at,
                g.bytes ∙ ap (λ q. size_of (pab q)) same,
              )
          | inr miss ↦
              let still : has g.block (k ∷ ks) ≡ false = rw miss out in
              inl (retaken g (ap (λ q. has g.block (f q)) same ∙ ap (has g.block) more ∙ still))
        ]
  ]

  pub Given-give : {a s : ℕ} → Given pab l f a s → Given pab l f' a s
  Given-give {a} {s} g = elim (Bool-cases (r == g.ref)) [
    | inr e ↦ retaken g (ap (has g.block) (others g.ref e) ∙ g.taken)
    | inl e ↦
        let same : g.ref ≡ r = ground arith in
        let out : has g.block (k ∷ ks) ≡ false =
          ap (has g.block) (sym more) ∙ ap (λ q. has g.block (f q)) (sym same) ∙ g.taken in
        let still : has g.block ks ≡ false = ground (arith, out) in
        retaken g (ap (λ q. has g.block (f' q)) same ∙ ap (has g.block) less ∙ still)
  ]

  pub Given-block :
      has r l ≡ true
      → k < blocks_of (pab r)
      → has k ks ≡ false
      → Given pab l f' (block_at (pab r) k) (size_of (pab r))
  Given-block lr i u = record {
    ref = r;
    block = k;
    listed = lr;
    inside = i;
    taken = ap (has k) less ∙ u;
    at = refl;
    bytes = refl;
  }

  module _ (apart : PagesApart pab l) (typed : (q : ℕ) → has q l ≡ true → type_of (pab q) < 8)
      (lr : has r l ≡ true) (i : k < blocks_of (pab r)) where
    -- A free block is not given out.
    pub Given-fresh : {s : ℕ} → Given pab l f (block_at (pab r) k) s → ⊥
    Given-fresh {s} g =
        let (same, both) =
          same_block pab l apart typed r g.ref k g.block lr g.listed i g.inside g.at in
        let at : (k == k) ≡ true = ground arith in
        let free : has k (k ∷ ks) ≡ true = rw at in
        let not_free : has k (k ∷ ks) ≡ false =
          ap (has k) (sym more)
          ∙ ap (λ q. has k (f q)) same
          ∙ ap (λ x. has x (f g.ref)) both
          ∙ g.taken in
        cc
