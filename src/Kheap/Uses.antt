-- ===== src/Kheap/Uses.antt =====
-- kern/lib/kheap.c: any use of the heap by clients that free only what they got and write only there.
use cs325os.Base.{
  ℕ, ◌+◌, ◌≤◌, ◌<◌, ◌≡◌, ◌≢◌, subst, inl, inr, ltb, Bool-cases, [], Option, none, some, ok, arith,
}
use cs325os.Ram.{Ram}
use cs325os.Ram.Pages as Pages
use cs325os.Kheap.Defs.{boot, Kheap, put, kmalloc, kfree}
use cs325os.Kheap.Inv.{pabs, limit}
use cs325os.Kheap.Blocks.{Disjoint, Given-Disjoint}
use cs325os.Kheap.Alloc.{Allocates, kmalloc-Allocates}
use cs325os.Kheap.Free.{kfree-Freed}
use cs325os.Kheap.Large.{kmalloc-PagesAt}
use cs325os.Kheap.Writes.{boot-IsValid, written-IsValid, outside-IsValid}
use cs325os.Kheap.Requests.{kmalloc-Held, kmalloc_short-Held}
use cs325os.Kheap.Held.{
  Held, Small-kept, Large-kept, Freed-Held, forget-Held, kfree-Large, Small-Large,
}

-- The heap and the sizes of what the clients hold, by address.
pub data Uses : Kheap → (ℕ → Option ℕ) → Type 0 where
  begin : (ram : Ram) (mem : ℕ → ℕ) → Pages.IsValid ram → Uses (boot ram mem) (λ p. none)
  request :
      {h h' : Kheap} {held : ℕ → Option ℕ} (sz p : ℕ)
      → Uses h held
      → sz ≤ 2147479552
      → kmalloc h sz ≡ ok (p, h')
      → 0 < p
      → Uses h' (put held p (some sz))
  shortage :
      {h h' : Kheap} {held : ℕ → Option ℕ} (sz : ℕ)
      → Uses h held
      → sz ≤ 2147479552
      → kmalloc h sz ≡ ok (0, h')
      → Uses h' held
  return :
      {h h' : Kheap} {held : ℕ → Option ℕ} (p sz : ℕ)
      → Uses h held
      → held p ≡ some sz
      → kfree h p ≡ ok h'
      → Uses h' (put held p none)
  write :
      {h : Kheap} {held : ℕ → Option ℕ} (p sz x w : ℕ)
      → Uses h held
      → held p ≡ some sz
      → p ≤ x
      → x < p + sz
      → Uses (record h { mem = put h.mem x w }) held

Uses-Held : (h : Kheap) (held : ℕ → Option ℕ) → Uses h held → Held h held
Uses-Held h held (begin ram mem v) = record {
  free = λ r. [];
  valid = boot-IsValid ram mem v;
  blocks = λ p sz e. cc;
  far = λ p q sz tz e. cc;
}
Uses-Held h held (request {h = h0} {held = held0} sz p u fits e pos) =
    elim (kmalloc-Held h0 h held0 sz p (Uses-Held h0 held0 u) fits e) [
      | inl (null, i) ↦ absurd (omega arith)
      | inr i ↦ i
    ]
Uses-Held h held (shortage {h = h0} sz u fits e) =
    kmalloc_short-Held h0 h held sz (Uses-Held h0 held u) fits e
Uses-Held h held (return {h = h0} {held = held0} p sz u e r) =
    let i = Uses-Held h0 held0 u in
    elim (i.blocks p sz e) [
      | inl g ↦
          let (h1, free', ran, f) = kfree-Freed h0 i.free p g.bytes i.valid g.live in
          let heap : h1 ≡ h = cc in
          subst (λ x. Held x (put held0 p none)) heap (Freed-Held h0 h1 free' held0 p i f)
      | inr g ↦
          let ran = kfree-Large h0 i.free p sz i.valid g in
          let heap : h0 ≡ h = cc in
          subst (λ x. Held x (put held0 p none)) heap (forget-Held h0 held0 p i)
    ]
Uses-Held h held (write {h = h0} p sz x w u e low high) =
    let i = Uses-Held h0 held u in
    let after = record h0 { mem = put h0.mem x w } in
    record {
      free = i.free;
      valid = elim (i.blocks p sz e) [
        | inl g ↦ written-IsValid h0 i.free p g.bytes x w i.valid g.live low (omega (arith, g.fits))
        | inr g ↦ outside-IsValid h0 i.free p sz x w i.valid g.clear low high
      ];
      blocks = λ q tz at. elim (i.blocks q tz at) [
        | inl g ↦ inl (Small-kept h0 after i.free i.free q tz g g.live)
        | inr g ↦ inr (Large-kept h0 after q tz (omega arith, λ a n below c. c) g)
      ];
      far = i.far;
    }

-- What the clients can rely on.
pub record Safe (h : Kheap) (held : ℕ → Option ℕ) : Type 0 where
  pub apart : (p q sz tz : ℕ) → held p ≡ some sz → held q ≡ some tz → p ≢ q → Disjoint p sz q tz
  pub returns : (p sz : ℕ) → held p ≡ some sz → (h' : Kheap) × (kfree h p ≡ ok h')
  pub answers : (sz : ℕ) → sz ≤ 2147479552 → (p : ℕ) × (h' : Kheap) × (kmalloc h sz ≡ ok (p, h'))

-- After any sequence of requests of up to 2 ^ 31 - 4096 bytes, of calls of kfree on blocks that are held, and
-- of writes into blocks that are held, from the start of the kernel on: the blocks held
-- do not overlap, kfree of each of them returns, and so does kmalloc of up to 2 ^ 31 - 4096 bytes.
pub Uses-Safe : (h : Kheap) (held : ℕ → Option ℕ) → Uses h held → Safe h held
Uses-Safe h held u =
    let i = Uses-Held h held u in
    record {
      apart = λ p q sz tz e e' ne. elim (i.blocks p sz e) [
        | inl g ↦ elim (i.blocks q tz e') [
          | inl g' ↦
              let le = g.fits in
              let le' = g'.fits in
              elim (Given-Disjoint (pabs h) h.allbase i.valid.apart
                (λ r l. (i.valid.each r l).typed) g.live g'.live ne) [
                  | inl before ↦ inl (omega arith)
                  | inr behind ↦ inr (omega arith)
                ]
          | inr g' ↦ Small-Large h i.free p q sz tz i.valid g g'
        ]
        | inr g ↦ elim (i.blocks q tz e') [
          | inl g' ↦ elim (Small-Large h i.free q p tz sz i.valid g' g) [
            | inl before ↦ inr before
            | inr behind ↦ inl behind
          ]
          | inr g' ↦ i.far p q sz tz e e' g.many g'.many ne
        ]
      ];
      returns = λ p sz e. elim (i.blocks p sz e) [
        | inl g ↦
            let (h', free', ran, f) = kfree-Freed h i.free p g.bytes i.valid g.live in (h', ran)
        | inr g ↦ (h, kfree-Large h i.free p sz i.valid g)
      ];
      answers = λ sz fits. elim (Bool-cases (ltb sz 2048)) [
        | inl less ↦ elim (kmalloc-Allocates h i.free sz i.valid (ground arith)) [
          | Allocates.null h' ran s ↦ (0, h', ran)
          | Allocates.block p h' free' ran t ↦ (p, h', ran)
        ]
        | inr more ↦ elim (kmalloc-PagesAt h i.free sz i.valid (ground arith) fits) [
          | inl (h', ran, t) ↦ (limit h, h', ran)
          | inr short ↦ (0, h, short)
        ]
      ];
    }
