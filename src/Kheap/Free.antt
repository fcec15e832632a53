-- ===== src/Kheap/Free.antt =====
-- kern/lib/kheap.c: `kfree` takes a block back.
use cs325os.Base.{
  ℕ, suc, ◌+◌, ◌-◌, ◌*◌, ◌%◌, ◌<◌, ◌≡◌, sym, ap, ap₂, ◌∙◌, subst, inl, inr, true, false, leb, ◌==◌,
  Bool-cases, List, ◌∷◌, length, ok, ◌>>=◌, arith,
}
use cs325os.Ram.{word}
use cs325os.Kheap.Defs.{Kheap, put, release, subpage_kfree, kfree, give_back}
use cs325os.Kheap.Sizes.{block-Inside, block_index, blocks_fill}
use cs325os.Kheap.Chain.{has}
use cs325os.Kheap.Inv.{
  IsValid, Live, pabs, limit_small, type_of, page_of, size_of, block_at, blocks_of,
}
use cs325os.Kheap.Find.{Placed, find_page_lem}
use cs325os.Kheap.Back.{gave, same_types, gave-Freed, give_back_lem}
use cs325os.Kheap.Release.{release-Same}
use cs325os.Kheap.Blocks.{put_here}
use cs325os.Kheap.Spec.{Freed, Freed-Same}

pub IsValid-Placed :
    (h : Kheap) (free : ℕ → List ℕ)
    → IsValid h free
    → (q : ℕ) → has q h.allbase ≡ true
    → Placed (pabs h q)
IsValid-Placed h free v q e =
    let small = limit_small v in
    let k = v.each q e in record { typed = k.typed; high = omega (arith, k.high) }

module _ (h : Kheap) (free : ℕ → List ℕ) (v : IsValid h free) (r k : ℕ)
    (listed : has r h.allbase ≡ true) (i : k < blocks_of (pabs h r))
    (taken : has k (free r) ≡ false) where
  all_blocks : {n : ℕ} → (suc (length (free r)) == n) ≡ true → suc (length (free r)) ≡ n
  all_blocks e = ground arith

  give_back-Freed :
      (h' : Kheap) × (free' : ℕ → List ℕ) × (give_back h r (k * size_of (pabs h r)) ≡ ok h')
      × Freed h free (block_at (pabs h r) k) h' free'
  give_back-Freed =
      let ran = give_back_lem h free v r k listed i taken in
      let done = gave-Freed h free v r k listed i taken in
      elim (Bool-cases (suc (length (free r)) == blocks_of (pabs h r))) [
        | inr some_left ↦
            (gave h free v r k listed i taken, put free r (k ∷ free r), ran ∙ rw some_left, done)
        | inl all_free ↦
            let types = same_types h free v r k listed i taken in
            let same : pabs (gave h free v r k listed i taken) r ≡ pabs h r = ap (λ p. p r) types in
            let full : suc (length (free r)) ≡ blocks_of (pabs h r) = all_blocks all_free in
            let count = ap length (put_here free r (k ∷ free r)) ∙ full ∙ ap blocks_of (sym same) in
            let (h', left, kept) =
              release-Same (gave h free v r k listed i taken) (put free r (k ∷ free r)) done.valid r
                listed count in
            let called =
              ap₂ (λ b page. release (gave h free v r k listed i taken) r b page)
                (ap type_of (sym same)) (ap page_of (sym same)) in
            (h', put free r (k ∷ free r), ran ∙ rw all_free (called ∙ left), Freed-Same done kept)
      ]

  subpage_kfree_lem :
      subpage_kfree h (block_at (pabs h r) k)
      ≡ (give_back h r (k * size_of (pabs h r)) >>= λ h'. ok (true, h'))
  unfolding subpage_kfree
  subpage_kfree_lem =
      let p = v.each r listed in
      let small = limit_small v in
      let fit = block-Inside (type_of (pabs h r)) p.typed k i in
      let least = (blocks_fill (type_of (pabs h r)) p.typed).3 in
      let found =
        find_page_lem h (block_at (pabs h r) k) h.allbase r (IsValid-Placed h free v)
          (λ q e ne. v.apart q r e listed ne) listed (omega arith) (omega arith) in
      let offset : (block_at (pabs h r) k + word - page_of (pabs h r)) % word
          ≡ k * size_of (pabs h r) =
        omega (arith, p.high) in
      let near : leb 4096 (k * size_of (pabs h r)) ≡ false = ground arith in
      let aligned = (block_index (type_of (pabs h r)) p.typed k).0 in
      rw (found, offset, near, aligned)

-- In a valid heap, `kfree` of a block that is given out returns. The heap stays valid, the block is no longer
-- given out, and all others stay given out with their contents.
pub kfree-Freed :
    (h : Kheap) (free : ℕ → List ℕ) (p s : ℕ)
    → IsValid h free
    → Live h free p s
    → (h' : Kheap) × (free' : ℕ → List ℕ) × (kfree h p ≡ ok h') × Freed h free p h' free'
unfolding kfree
kfree-Freed h free p s v g =
    let low = (v.each g.ref g.listed).low in
    let some_block : (block_at (pabs h g.ref) g.block == 0) ≡ false = ground arith in
    let there = subpage_kfree_lem h free v g.ref g.block g.listed g.inside g.taken in
    let (h', free', ran, done) = give_back-Freed h free v g.ref g.block g.listed g.inside g.taken in
    (
      h',
      free',
      rw g.at (rw (some_block, there, ran)),
      subst (λ a. Freed h free a h' free') (sym g.at) done,
    )
