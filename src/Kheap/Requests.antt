-- ===== src/Kheap/Requests.antt =====
-- kern/lib/kheap.c: what the clients of the heap hold after a request.
use cs325os.Base.{
  ℕ, ◌+◌, ◌≤◌, ◌<◌, ◌≡◌, ◌⊎◌, ◌∙◌, sym, subst, inl, inr, ltb, ◌==◌, Bool-cases, List, Option, some,
  ok, arith,
}
use cs325os.Kheap.Defs.{Kheap, put, kmalloc}
use cs325os.Kheap.Inv.{Live, limit}
use cs325os.Kheap.Blocks.{same_ref}
use cs325os.Kheap.Spec.{Allocated}
use cs325os.Kheap.Alloc.{Allocates, kmalloc-Allocates}
use cs325os.Kheap.Large.{PagesAt, kmalloc-PagesAt}
use cs325os.Kheap.Held.{Held, Small-kept, Large, Large-kept, Same-Held}

-- Of a block that is held, or the new one of `sz` bytes at `p`.
put_cases :
    (held : ℕ → Option ℕ) (p sz q tz : ℕ)
    → put held p (some sz) q ≡ some tz
    → ((p ≡ q) × (sz ≡ tz)) ⊎ (held q ≡ some tz)
put_cases held p sz q tz e = elim (Bool-cases (p == q)) [
  | inl hit ↦
      let size : some sz ≡ some tz = rw hit at e in
      let same : sz ≡ tz = cc in inl (sym (same_ref p q hit), same)
  | inr miss ↦ let before : held q ≡ some tz = rw miss at e in inr before
]

Allocated-Held :
    (h h' : Kheap) (free' : ℕ → List ℕ) (held : ℕ → Option ℕ) (sz p : ℕ) (i : Held h held)
    → sz < 2048
    → Allocated h i.free sz p h' free'
    → Held h' (put held p (some sz))
Allocated-Held h h' free' held sz p i few t = record {
  free = free';
  valid = t.valid;
  blocks = λ q tz e. elim (put_cases held p sz q tz e) [
    | inl (at, size) ↦ inl (record {
      few = omega arith;
      bytes = t.bytes;
      fits = subst (λ n. n ≤ t.bytes) size t.fits;
      live = subst (λ a. Live h' free' a t.bytes) at t.given;
    })
    | inr before ↦ elim (i.blocks q tz before) [
      | inl g ↦ inl (Small-kept h h' i.free free' q tz g (t.kept q g.bytes g.live))
      | inr g ↦ inr (Large-kept h h' q tz t.pages g)
    ]
  ];
  far = λ q q' tz tz' e e' big big' ne. elim (put_cases held p sz q tz e) [
    | inl (at, size) ↦ absurd (omega arith)
    | inr before ↦ elim (put_cases held p sz q' tz' e') [
      | inl (at, size) ↦ absurd (omega arith)
      | inr before' ↦ i.far q q' tz tz' before before' big big' ne
    ]
  ];
}

-- A large block that is held ends where the pages from RAM do.
Held-below :
    (h : Kheap) (held : ℕ → Option ℕ) (i : Held h held) (q tz : ℕ)
    → held q ≡ some tz
    → 2048 ≤ tz
    → q + tz ≤ limit h
Held-below h held i q tz e big = elim (i.blocks q tz e) [
  | inl g ↦ let few = g.few in absurd (omega arith)
  | inr g ↦ g.below
]

PagesAt-Held :
    (h h' : Kheap) (held : ℕ → Option ℕ) (sz : ℕ) (i : Held h held)
    → 2048 ≤ sz
    → PagesAt h i.free sz (limit h) h'
    → Held h' (put held (limit h) (some sz))
PagesAt-Held h h' held sz i many t = record {
  free = i.free;
  valid = t.same.valid;
  blocks = λ q tz e. elim (put_cases held (limit h) sz q tz e) [
    | inl (at, size) ↦ inr (
        subst (λ a. Large h' a tz) at
          (subst (Large h' (limit h)) size
            (record { many = many; aligned = t.aligned; below = t.room; clear = t.clear })))
    | inr before ↦ elim (i.blocks q tz before) [
      | inl g ↦ inl (Small-kept h h' i.free i.free q tz g (t.same.kept q g.bytes g.live))
      | inr g ↦ inr (Large-kept h h' q tz t.same.pages g)
    ]
  ];
  far = λ q q' tz tz' e e' big big' ne. elim (put_cases held (limit h) sz q tz e) [
    | inl (at, size) ↦ elim (put_cases held (limit h) sz q' tz' e') [
      | inl (at', size') ↦ absurd (ne (sym at ∙ at'))
      | inr before' ↦ let le = Held-below h held i q' tz' before' big' in inr (omega arith)
    ]
    | inr before ↦ elim (put_cases held (limit h) sz q' tz' e') [
      | inl (at', size') ↦ let le = Held-below h held i q tz before big in inl (omega arith)
      | inr before' ↦ i.far q q' tz tz' before before' big big' ne
    ]
  ];
}

pub kmalloc-Held :
    (h h' : Kheap) (held : ℕ → Option ℕ) (sz p : ℕ)
    → Held h held
    → sz ≤ 2147479552
    → kmalloc h sz ≡ ok (p, h')
    → ((p ≡ 0) × Held h' held) ⊎ Held h' (put held p (some sz))
kmalloc-Held h h' held sz p i fits e = elim (Bool-cases (ltb sz 2048)) [
  | inl less ↦
      let few : sz < 2048 = ground arith in
      elim (kmalloc-Allocates h i.free sz i.valid few) [
        | Allocates.null h1 ran s ↦
            let none_left : p ≡ 0 = cc in
            let heap : h1 ≡ h' = cc in
            inl (none_left, subst (λ x. Held x held) heap (Same-Held h h1 i.free held i s))
        | Allocates.block q h1 free' ran t ↦
            let same : q ≡ p = cc in
            let heap : h1 ≡ h' = cc in
            inr (
              subst (λ x. Held h' (put held x (some sz))) same
                (subst (λ x. Held x (put held q (some sz))) heap
                  (Allocated-Held h h1 free' held sz q i few t)))
      ]
  | inr more ↦
      let many : 2048 ≤ sz = ground arith in
      elim (kmalloc-PagesAt h i.free sz i.valid many fits) [
        | inl (h1, ran, t) ↦
            let same : limit h ≡ p = cc in
            let heap : h1 ≡ h' = cc in
            inr (
              subst (λ x. Held h' (put held x (some sz))) same
                (subst (λ x. Held x (put held (limit h) (some sz))) heap
                  (PagesAt-Held h h1 held sz i many t)))
        | inr short ↦
            let none_left : p ≡ 0 = cc in
            let heap : h ≡ h' = cc in inl (none_left, subst (λ x. Held x held) heap i)
      ]
]

pub kmalloc_short-Held :
    (h h' : Kheap) (held : ℕ → Option ℕ) (sz : ℕ)
    → Held h held
    → sz ≤ 2147479552
    → kmalloc h sz ≡ ok (0, h')
    → Held h' held
kmalloc_short-Held h h' held sz i fits e = elim (Bool-cases (ltb sz 2048)) [
  | inl less ↦ elim (kmalloc-Allocates h i.free sz i.valid (ground arith)) [
    | Allocates.null h1 ran s ↦
        let heap : h1 ≡ h' = cc in subst (λ x. Held x held) heap (Same-Held h h1 i.free held i s)
    | Allocates.block q h1 free' ran t ↦
        let no_block : q ≡ 0 = cc in let pos = t.some_block in absurd (omega arith)
  ]
  | inr more ↦ elim (kmalloc-PagesAt h i.free sz i.valid (ground arith) fits) [
    | inl (h1, ran, t) ↦ let no_block : limit h ≡ 0 = cc in absurd (omega arith)
    | inr short ↦ let heap : h ≡ h' = cc in subst (λ x. Held x held) heap i
  ]
]
