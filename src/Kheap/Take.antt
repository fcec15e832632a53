-- ===== src/Kheap/Take.antt =====
-- kern/lib/kheap.c: taking the first free block of a page.
use cs325os.Base.{
  ℕ, suc, ◌+◌, ◌-◌, ◌*◌, ◌%◌, ◌≤◌, ◌<◌, ◌≡◌, refl, sym, subst, true, false, ◌⊎◌, ltb, ◌==◌, List,
  [], ◌∷◌, length, ok, arith,
}
use cs325os.Ram.{kseg0, word, max_ram}
use cs325os.Kheap.Defs.{Kheap, Pageref, size_at, put, doalloc, next_offset}
use cs325os.Kheap.Sizes.{blocks_at, block-Inside, blocks_fill}
use cs325os.Kheap.Chain.{offset_of, head_at, AllBelow, Unique-bound, has}
use cs325os.Kheap.Spec.{Allocated}
use cs325os.Kheap.Update.{updated, pabs-updated, updated-IsValid}
use cs325os.Kheap.Blocks.{put_here, put_there, Given-take, Given-give, Given-block, Given-fresh}
use cs325os.Kheap.Inv.{
  limit_small, RefOk, IsValid, block_at, Given, page_of, type_of, size_of, pabs, limit,
}

-- The reference after its first free block is taken.
abbrev pub taken_ref : Pageref → List ℕ → Pageref
taken_ref pr ks = record pr {
  freelist_offset = offset_of (size_of pr.pageaddr_and_blocktype) ks;
  nfree = length ks;
}

next_offset_lem :
    (page s n : ℕ) (ks : List ℕ)
    → 0 < page
    → page + 4096 < word
    → ((k : ℕ) → k < n → k * s + s ≤ 4096)
    → 0 < s
    → AllBelow n ks
    → next_offset page (head_at page s ks) (length ks) ≡ ok (offset_of s ks)
unfolding next_offset
next_offset_lem page s n [] low high inside pos below = refl
next_offset_lem page s n (k ∷ ks) low high inside pos below =
    let fit = inside k below.0 in
    let some_left : (page + k * s == 0) ≡ false = ground arith in
    let count : ltb 0 (suc (length ks)) ≡ true = ground arith in
    let back : (page + k * s + word - page) % word ≡ k * s = omega arith in
    let near : ltb (k * s) 4096 ≡ true = ground arith in rw (some_left, count, back, near)

module _ (h : Kheap) (r limit k : ℕ) (ks : List ℕ) where
  -- `doalloc` gives the first free block of the page, and leaves the others free.
  pub doalloc_lem :
      RefOk (h.pagerefs r) h.mem limit (k ∷ ks)
      → limit ≤ kseg0 + max_ram
      → doalloc h r
        ≡ ok (
          page_of (pabs h r) + k * size_at (type_of (pabs h r)),
          record h { pagerefs = put h.pagerefs r (taken_ref (h.pagerefs r) ks) },
        )
  unfolding doalloc
  doalloc_lem v small =
      let b = type_of (pabs h r) in
      let page = page_of (pabs h r) in
      let few = Unique-bound (blocks_at b) (k ∷ ks) v.unique v.below in
      let fit = block-Inside b v.typed k v.below.0 in
      let (fill, _, many, least, _) = blocks_fill b v.typed in
      let near : ltb (k * size_at b) 4096 ≡ true = ground arith in
      let at : (page + k * size_at b) % word ≡ page + k * size_at b = omega (arith, v.high) in
      let left : (suc (length ks) + 65536 - 1) % 65536 ≡ length ks = omega (arith, few, many) in
      let next =
        next_offset_lem page (size_at b) (blocks_at b) ks (omega (arith, v.low))
          (omega (arith, v.high)) (block-Inside b v.typed) (omega arith) v.below.1 in
      rw (v.start, v.count, near, at, left, v.links.0, next)

taken-RefOk :
    {mem : ℕ → ℕ} {pr : Pageref} {limit k : ℕ} {ks : List ℕ}
    → RefOk pr mem limit (k ∷ ks)
    → RefOk (taken_ref pr ks) mem limit ks
taken-RefOk v = record {
  typed = v.typed;
  low = v.low;
  high = v.high;
  count = refl;
  start = refl;
  links = v.links.1;
  below = v.below.1;
  unique = v.unique.1;
}

module _ (h : Kheap) (free : ℕ → List ℕ) (r k : ℕ) (ks : List ℕ) (v : IsValid h free)
    (listed : has r h.allbase ≡ true) (some_free : free r ≡ k ∷ ks) where
  abbrev pub after : Kheap
  after = updated h free r (taken_ref (h.pagerefs r) ks) ks h.mem

  opened : RefOk (h.pagerefs r) h.mem (limit h) (k ∷ ks)
  opened = subst (RefOk (h.pagerefs r) h.mem (limit h)) some_free (v.each r listed)

  same_types : pabs after ≡ pabs h
  same_types = pabs-updated h free r (taken_ref (h.pagerefs r) ks) ks h.mem refl

  -- A page with a free block gives it out.
  pub doalloc-Allocated :
      (sz : ℕ)
      → sz ≤ size_of (pabs h r)
      → (doalloc h r ≡ ok (block_at (pabs h r) k, after))
        × Allocated h free sz (block_at (pabs h r) k) after (put free r ks)
  doalloc-Allocated sz fits =
      let less = put_here free r ks in
      let others : (q : ℕ) → (r == q) ≡ false → put free r ks q ≡ free q = put_there free r ks in
      let back = λ (p : ℕ → ℕ) (a s : ℕ). Given p h.allbase (put free r ks) a s in
      let typed : (q : ℕ) → has q h.allbase ≡ true → type_of (pabs h q) < 8 =
        λ q l. (v.each q l).typed in
      (
        doalloc_lem h r (limit h) k ks opened (limit_small v),
        record {
          valid =
              updated-IsValid h free r (taken_ref (h.pagerefs r) ks) ks h.mem refl v
                (taken-RefOk opened) (λ q e l. v.each q l);
          bytes = size_of (pabs h r);
          fits = fits;
          some_block = omega (arith, opened.low);
          fresh = λ s.
              Given-fresh (pabs h) h.allbase free (put free r ks) r k ks some_free less others
                v.apart typed listed opened.below.0;
          given =
              subst (λ p. back p (block_at (pabs h r) k) (size_of (pabs h r))) (sym same_types)
                (Given-block (pabs h) h.allbase free (put free r ks) r k ks some_free less others
                  listed opened.below.0 opened.unique.0);
          kept = λ a s g.
              subst (λ p. back p a s) (sym same_types)
                (Given-give (pabs h) h.allbase free (put free r ks) r k ks some_free less others g);
          only = λ a s g.
              Given-take (pabs h) h.allbase free (put free r ks) r k ks some_free less others
                (subst (λ p. back p a s) same_types g);
          memory = λ a s x g low high. refl;
          pages = (
            omega arith,
            λ p n below.
                subst
                  (λ (q : ℕ → ℕ).
                    (x : ℕ)
                    → has x h.allbase ≡ true
                    → (page_of (q x) + 4096 ≤ p) ⊎ (p + n ≤ page_of (q x)))
                  (sym same_types),
          );
        },
      )
