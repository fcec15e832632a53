-- ===== src/Kheap/Back.antt =====
-- kern/lib/kheap.c: the heap after a block has gone back to its page.
use cs325os.Base.{
  ℕ, suc, ◌+◌, ◌*◌, ◌%◌, ◌≤◌, ◌<◌, ◌≡◌, ◌≢◌, refl, sym, subst, ◌⊎◌, inl, inr, true, false, leb,
  ◌==◌, if◌then◌else◌, List, [], ◌∷◌, length, ok, arith,
}
use cs325os.Ram.{word}
use cs325os.Kheap.Defs.{Kheap, put, size_at, give_back, release, invalid_offset}
use cs325os.Kheap.Sizes.{blocks_at, blocks_fill, block-Inside}
use cs325os.Kheap.Chain.{has, AllBelow, Unique-bound, head_at, offset_of}
use cs325os.Kheap.Inv.{
  RefOk, IsValid, Given, pabs, limit, limit_small, page_of, type_of, size_of, blocks_of, block_at,
}
use cs325os.Kheap.Blocks.{put_here, put_there, Given-take, Given-give, Given-fresh, Given-Disjoint}
use cs325os.Kheap.Update.{updated, pabs-updated, updated-IsValid}
use cs325os.Kheap.Frame.{RefOk-frame}
use cs325os.Kheap.Spec.{Freed}
use cs325os.Kheap.Give.{given_ref, new_mem, new_mem_lem, given-RefOk}

-- The next pointer of the block that goes back.
next_lem :
    (page s n : ℕ) (ks : List ℕ)
    → page + 4096 < word
    → ((k : ℕ) → k < n → k * s + s ≤ 4096)
    → AllBelow n ks
    → (if offset_of s ks == invalid_offset then 0 else (page + offset_of s ks) % word)
      ≡ head_at page s ks
next_lem page s n [] high inside below = refl
next_lem page s n (k ∷ ks) high inside below =
    let fit = inside k below.0 in
    let used : (k * s == 65535) ≡ false = ground arith in
    let at : (page + k * s) % word ≡ page + k * s = omega arith in rw (used, at)

module _ (h : Kheap) (free : ℕ → List ℕ) (v : IsValid h free) (r k : ℕ)
    (listed : has r h.allbase ≡ true) (i : k < blocks_of (pabs h r))
    (taken : has k (free r) ≡ false) where
  page_ok : RefOk (h.pagerefs r) h.mem (limit h) (free r)
  page_ok = v.each r listed

  abbrev pub gave : Kheap
  gave =
      updated h free r (given_ref (h.pagerefs r) k (free r)) (k ∷ free r)
        (new_mem (h.pagerefs r) h.mem (limit h) k (free r) (v.each r listed) i taken)

  typed : (q : ℕ) → has q h.allbase ≡ true → type_of (pabs h q) < 8
  typed q e = (v.each q e).typed

  -- A word outside of the block is as before.
  gave_mem :
      (x : ℕ)
      → (x < block_at (pabs h r) k) ⊎ (block_at (pabs h r) k + size_of (pabs h r) ≤ x)
      → gave.mem x ≡ h.mem x
  gave_mem x out = new_mem_lem (h.pagerefs r) h.mem (limit h) k (free r) page_ok i taken x out

  gave-IsValid : IsValid gave (put free r (k ∷ free r))
  gave-IsValid =
      let fit = block-Inside (type_of (pabs h r)) page_ok.typed k i in
      let mem' = new_mem (h.pagerefs r) h.mem (limit h) k (free r) page_ok i taken in
      updated-IsValid h free r (given_ref (h.pagerefs r) k (free r)) (k ∷ free r) mem' refl v
        (given-RefOk (h.pagerefs r) h.mem (limit h) k (free r) page_ok i taken)
        (λ q miss e.
          let differ : r ≢ q = ground arith in
          let apart = v.apart r q listed e differ in
          RefOk-frame (h.pagerefs q) h.mem mem' (limit h) (limit h) (free q) (omega arith)
            (λ x low high. gave_mem x (ground arith)) (v.each q e))

  pub same_types : pabs gave ≡ pabs h
  same_types =
      pabs-updated h free r (given_ref (h.pagerefs r) k (free r)) (k ∷ free r)
        (new_mem (h.pagerefs r) h.mem (limit h) k (free r) page_ok i taken) refl

  -- The block is no longer given out.
  pub gave-Freed : Freed h free (block_at (pabs h r) k) gave (put free r (k ∷ free r))
  gave-Freed =
      let f = put free r (k ∷ free r) in
      let more : f r ≡ k ∷ free r = put_here free r (k ∷ free r) in
      let others : (q : ℕ) → (r == q) ≡ false → free q ≡ f q =
        λ q e. sym (put_there free r (k ∷ free r) q e) in
      let now = λ (p : ℕ → ℕ) (a s : ℕ). Given p h.allbase f a s in
      let this : Given (pabs h) h.allbase free (block_at (pabs h r) k) (size_of (pabs h r)) =
        record {
          ref = r;
          block = k;
          listed = listed;
          inside = i;
          taken = taken;
          at = refl;
          bytes = refl;
        } in
      record {
        valid = gave-IsValid;
        gone = λ s g.
            Given-fresh (pabs h) h.allbase f free r k (free r) more refl others v.apart typed listed
              i (subst (λ p. now p (block_at (pabs h r) k) s) same_types g);
        kept = λ a s g ne.
            elim (Given-take (pabs h) h.allbase f free r k (free r) more refl others g) [
              | inl there ↦ subst (λ p. now p a s) (sym same_types) there
              | inr it ↦ absurd (ne it.0)
            ];
        only = λ a s g.
            Given-give (pabs h) h.allbase f free r k (free r) more refl others
              (subst (λ p. now p a s) same_types g);
        pages = (
          omega arith,
          λ p n below.
              subst
                (λ (w : ℕ → ℕ).
                  (x : ℕ)
                  → has x h.allbase ≡ true
                  → (page_of (w x) + 4096 ≤ p) ⊎ (p + n ≤ page_of (w x)))
                (sym same_types),
        );
        memory = λ a s x g ne low high.
            elim (Given-Disjoint (pabs h) h.allbase v.apart typed g this ne) [
              | inl before ↦ gave_mem x (inl (omega arith))
              | inr behind ↦ gave_mem x (inr (omega arith))
            ];
      }

  pub give_back_lem : give_back h r (k * size_of (pabs h r)) ≡ (
      if suc (length (free r)) == blocks_of (pabs h r)
      then release gave r (type_of (pabs h r)) (page_of (pabs h r))
      else ok gave)
  unfolding give_back
  give_back_lem =
      let small = limit_small v in
      let b = type_of (pabs h r) in
      let fit = block-Inside b page_ok.typed k i in
      let most = (blocks_fill b page_ok.typed).2 in
      let few =
        Unique-bound (blocks_at b) (k ∷ free r) (taken, page_ok.unique) (i, page_ok.below) in
      let at : (page_of (pabs h r) + k * size_at b) % word ≡ page_of (pabs h r) + k * size_at b =
        omega (arith, page_ok.high) in
      let count : (length (free r) + 1) % 65536 ≡ suc (length (free r)) = omega arith in
      let next =
        next_lem (page_of (pabs h r)) (size_at b) (blocks_at b) (free r)
          (omega (arith, page_ok.high)) (block-Inside b page_ok.typed) page_ok.below in
      let fine : leb (suc (length (free r))) (blocks_at b) ≡ true = ground arith in
      rw (page_ok.count, page_ok.start, at, count, next, fine)
