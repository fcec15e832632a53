-- ===== src/Kheap/Held.antt =====
-- kern/lib/kheap.c: the blocks that clients of the heap hold, small ones in its pages and larger ones outside.
use cs325os.Base.{
  ℕ, ◌+◌, ◌%◌, ◌≤◌, ◌<◌, ◌≡◌, ◌≢◌, ◌⊎◌, ◌∙◌, sym, inl, inr, true, ◌==◌, Bool-cases, List, Option,
  none, some, ok, arith,
}
use cs325os.Kheap.Defs.{Kheap, put, kfree}
use cs325os.Kheap.Sizes.{block-Inside}
use cs325os.Kheap.Inv.{IsValid, Live, Clear, pabs, type_of, limit}
use cs325os.Kheap.Blocks.{Disjoint, differs}
use cs325os.Kheap.Spec.{Same, Freed, PagesKept}
use cs325os.Kheap.Round.{kfree_elsewhere}

-- A block of less than 2048 bytes is one of the heap's blocks.
pub record Small (h : Kheap) (free : ℕ → List ℕ) (p sz : ℕ) : Type 0 where
  pub few : sz < 2048
  pub bytes : ℕ
  pub fits : sz ≤ bytes
  pub live : Live h free p bytes

-- A larger one is outside of the heap's pages.
pub record Large (h : Kheap) (p sz : ℕ) : Type 0 where
  pub many : 2048 ≤ sz
  pub aligned : p % 4096 ≡ 0
  pub below : p + sz ≤ limit h
  pub clear : Clear h p sz

-- What the clients hold is given out.
pub record Held (h : Kheap) (held : ℕ → Option ℕ) : Type 0 where
  pub free : ℕ → List ℕ
  pub valid : IsValid h free
  pub blocks : (p sz : ℕ) → held p ≡ some sz → Small h free p sz ⊎ Large h p sz
  pub far :
      (p q sz tz : ℕ)
      → held p ≡ some sz
      → held q ≡ some tz
      → 2048 ≤ sz
      → 2048 ≤ tz
      → p ≢ q
      → Disjoint p sz q tz

pub Large-kept : (h h' : Kheap) (p sz : ℕ) → PagesKept h h' → Large h p sz → Large h' p sz
Large-kept h h' p sz k g = record {
  many = g.many;
  aligned = g.aligned;
  below = omega (arith, k.0, g.below);
  clear = k.1 p sz g.below g.clear;
}

pub Small-kept :
    (h h' : Kheap) (free free' : ℕ → List ℕ) (p sz : ℕ) (g : Small h free p sz)
    → Live h' free' p g.bytes
    → Small h' free' p sz
Small-kept h h' free free' p sz g l = record {
  few = g.few;
  bytes = g.bytes;
  fits = g.fits;
  live = l;
}

pub Same-Held :
    (h h' : Kheap) (free' : ℕ → List ℕ) (held : ℕ → Option ℕ) (i : Held h held)
    → Same h i.free h' free'
    → Held h' held
Same-Held h h' free' held i t = record {
  free = free';
  valid = t.valid;
  blocks = λ p sz e. elim (i.blocks p sz e) [
    | inl g ↦ inl (Small-kept h h' i.free free' p sz g (t.kept p g.bytes g.live))
    | inr g ↦ inr (Large-kept h h' p sz t.pages g)
  ];
  far = i.far;
}

-- A block that is still held after the one at `p` is gone.
left_lem :
    (held : ℕ → Option ℕ) (p q tz : ℕ) → put held p none q ≡ some tz → (held q ≡ some tz) × (q ≢ p)
left_lem held p q tz e = elim (Bool-cases (p == q)) [
  | inl hit ↦ let gone : none ≡ some tz = rw hit at e in cc
  | inr miss ↦
      let before : held q ≡ some tz = rw miss at e in (before, λ same. differs p q miss (sym same))
]

pub Freed-Held :
    (h h' : Kheap) (free' : ℕ → List ℕ) (held : ℕ → Option ℕ) (p : ℕ) (i : Held h held)
    → Freed h i.free p h' free'
    → Held h' (put held p none)
Freed-Held h h' free' held p i f = record {
  free = free';
  valid = f.valid;
  blocks = λ q tz e.
      let (before, ne) = left_lem held p q tz e in
      elim (i.blocks q tz before) [
        | inl g ↦ inl (Small-kept h h' i.free free' q tz g (f.kept q g.bytes g.live ne))
        | inr g ↦ inr (Large-kept h h' q tz f.pages g)
      ];
  far = λ q q' tz tz' e e'.
      i.far q q' tz tz' (left_lem held p q tz e).0 (left_lem held p q' tz' e').0;
}

pub forget-Held : (h : Kheap) (held : ℕ → Option ℕ) (p : ℕ) → Held h held → Held h (put held p none)
forget-Held h held p i = record {
  free = i.free;
  valid = i.valid;
  blocks = λ q tz e. i.blocks q tz (left_lem held p q tz e).0;
  far = λ q q' tz tz' e e'.
      i.far q q' tz tz' (left_lem held p q tz e).0 (left_lem held p q' tz' e').0;
}

-- Pages from RAM are not taken back, and `kfree` of them returns.
pub kfree-Large :
    (h : Kheap) (free : ℕ → List ℕ) (p sz : ℕ) → IsValid h free → Large h p sz → kfree h p ≡ ok h
kfree-Large h free p sz v g =
    let whole : (p % 4096 == 0) ≡ true = ground (arith, g.aligned) in
    kfree_elsewhere h free p v (λ r e. elim (g.clear r e) [
      | inl behind ↦ inr behind
      | inr before ↦ inl (omega (arith, g.many))
    ])
    ∙ rw whole

-- A block of the heap is apart from one outside.
pub Small-Large :
    (h : Kheap) (free : ℕ → List ℕ) (p q sz tz : ℕ)
    → IsValid h free
    → Small h free p sz
    → Large h q tz
    → Disjoint p sz q tz
Small-Large h free p q sz tz v g g' =
    let s = g.live in
    let k = v.each s.ref s.listed in
    let fit = block-Inside (type_of (pabs h s.ref)) k.typed s.block s.inside in
    let le = g.fits in
    elim (g'.clear s.ref s.listed) [
      | inl behind ↦ inl (omega (arith, s.at, s.bytes))
      | inr before ↦ inr (omega (arith, s.at, s.bytes))
    ]
