-- ===== src/Kheap/Spec.antt =====
-- kern/lib/kheap.c: the contract of the heap, a set of blocks that it has given out.
use cs325os.Base.{ℕ, ◌+◌, ◌≤◌, ◌<◌, ◌≡◌, ◌∙◌, ◌⊎◌, inl, inr, List, arith}
use cs325os.Kheap.Defs.{Kheap}
use cs325os.Kheap.Inv.{IsValid, Live, Clear, limit}

-- The memory of the blocks given out is as before.
abbrev pub Untouched : Kheap → (ℕ → List ℕ) → Kheap → Type 0
Untouched h free h' = (a s x : ℕ) → Live h free a s → a ≤ x → x < a + s → h'.mem x ≡ h.mem x

-- The pages handed out from RAM stay so, and none of them becomes a page of the heap.
abbrev pub PagesKept : Kheap → Kheap → Type 0
PagesKept h h' =
    (limit h ≤ limit h') × ((p sz : ℕ) → p + sz ≤ limit h → Clear h p sz → Clear h' p sz)

-- The same blocks are given out, and their memory is as before.
pub record Same (h : Kheap) (free : ℕ → List ℕ) (h' : Kheap) (free' : ℕ → List ℕ) : Type 0 where
  pub valid : IsValid h' free'
  pub kept : (a s : ℕ) → Live h free a s → Live h' free' a s
  pub only : (a s : ℕ) → Live h' free' a s → Live h free a s
  pub memory : Untouched h free h'
  pub pages : PagesKept h h'

-- A block at `p` of at least `sz` bytes, which was not given out, is given out as well.
pub record Allocated (h : Kheap) (free : ℕ → List ℕ) (sz p : ℕ) (h' : Kheap) (free' : ℕ → List ℕ)
    : Type 0 where
  pub valid : IsValid h' free'
  pub bytes : ℕ
  pub fits : sz ≤ bytes
  pub some_block : 0 < p
  pub fresh : (s : ℕ) → Live h free p s → ⊥
  pub given : Live h' free' p bytes
  pub kept : (a s : ℕ) → Live h free a s → Live h' free' a s
  pub only : (a s : ℕ) → Live h' free' a s → Live h free a s ⊎ ((a ≡ p) × (s ≡ bytes))
  pub memory : Untouched h free h'
  pub pages : PagesKept h h'

-- The block at `p` is no longer given out, and all others are.
pub record Freed (h : Kheap) (free : ℕ → List ℕ) (p : ℕ) (h' : Kheap) (free' : ℕ → List ℕ)
    : Type 0 where
  pub valid : IsValid h' free'
  pub gone : (s : ℕ) → Live h' free' p s → ⊥
  pub kept : (a s : ℕ) → Live h free a s → (a ≡ p → ⊥) → Live h' free' a s
  pub only : (a s : ℕ) → Live h' free' a s → Live h free a s
  pub memory : (a s x : ℕ) → Live h free a s → (a ≡ p → ⊥) → a ≤ x → x < a + s → h'.mem x ≡ h.mem x
  pub pages : PagesKept h h'

PagesKept-trans : (h h' h'' : Kheap) → PagesKept h h' → PagesKept h' h'' → PagesKept h h''
PagesKept-trans h h' h'' a b =
    (omega (arith, a.0, b.0), λ p sz below c. b.1 p sz (omega (arith, a.0)) (a.1 p sz below c))

pub Same-Allocated :
    {h h' h'' : Kheap} {free free' free'' : ℕ → List ℕ} {sz p : ℕ}
    → Same h free h' free'
    → Allocated h' free' sz p h'' free''
    → Allocated h free sz p h'' free''
Same-Allocated {h} {h'} {h''} s t = record {
  valid = t.valid;
  bytes = t.bytes;
  fits = t.fits;
  some_block = t.some_block;
  fresh = λ n l. t.fresh n (s.kept _ n l);
  given = t.given;
  kept = λ a n l. t.kept a n (s.kept a n l);
  only = λ a n l. elim (t.only a n l) [ inl o ↦ inl (s.only a n o) | inr e ↦ inr e ];
  memory = λ a n x l low high. t.memory a n x (s.kept a n l) low high ∙ s.memory a n x l low high;
  pages = PagesKept-trans h h' h'' s.pages t.pages;
}

pub Freed-Same :
    {h h' h'' : Kheap} {free free' free'' : ℕ → List ℕ} {p : ℕ}
    → Freed h free p h' free'
    → Same h' free' h'' free''
    → Freed h free p h'' free''
Freed-Same {h} {h'} {h''} f s = record {
  valid = s.valid;
  gone = λ n l. f.gone n (s.only _ n l);
  kept = λ a n l ne. s.kept a n (f.kept a n l ne);
  only = λ a n l. f.only a n (s.only a n l);
  memory = λ a n x l ne low high.
      s.memory a n x (f.kept a n l ne) low high ∙ f.memory a n x l ne low high;
  pages = PagesKept-trans h h' h'' f.pages s.pages;
}
