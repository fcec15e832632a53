-- ===== src/Kheap/Give.antt =====
-- kern/lib/kheap.c: a block goes back to the free list of its page.
use cs325os.Base.{
  ℕ, zero, suc, ◌+◌, ◌*◌, ◌/◌, ◌≤◌, ◌<◌, ◌≡◌, ◌≢◌, refl, ◌∙◌, subst, ◌⊎◌, inl, inr, true, false,
  ◌==◌, List, ◌∷◌, length, arith,
}
use cs325os.Kheap.Defs.{Pageref, put, fill_deadbeef}
use cs325os.Kheap.Sizes.{blocks_fill, blocks-Apart}
use cs325os.Kheap.Chain.{has, Links-frame, head_at}
use cs325os.Kheap.Inv.{RefOk, page_of, type_of, size_of, blocks_of, block_at}
use cs325os.Kheap.Blocks.{put_here}
use cs325os.Kheap.Frame.{clash}

fill_deadbeef_lem :
    (n ptr : ℕ) (mem : ℕ → ℕ) (x : ℕ)
    → (x < ptr) ⊎ (ptr + n * 4 ≤ x)
    → fill_deadbeef n ptr mem x ≡ mem x
unfolding fill_deadbeef
fill_deadbeef_lem zero ptr mem x out = refl
fill_deadbeef_lem (suc n) ptr mem x out =
    let miss : (ptr == x) ≡ false = ground arith in
    fill_deadbeef_lem n (ptr + 4) (put mem ptr 0xdeadbeef) x (ground arith) ∙ rw miss

-- The memory after the block of `s` bytes at `a` is filled and linked to `next`.
abbrev pub linked_in : (ℕ → ℕ) → ℕ → ℕ → ℕ → ℕ → ℕ
linked_in mem a s next = put (fill_deadbeef (s / 4) a mem) a next

linked_in_lem :
    (mem : ℕ → ℕ) (a s next x : ℕ)
    → 0 < s
    → s / 4 * 4 ≡ s
    → (x < a) ⊎ (a + s ≤ x)
    → linked_in mem a s next x ≡ mem x
linked_in_lem mem a s next x pos whole out =
    let miss : (a == x) ≡ false = ground arith in
    rw miss (fill_deadbeef_lem (s / 4) a mem x (ground arith))

abbrev pub given_ref : Pageref → ℕ → List ℕ → Pageref
given_ref pr k ks = record pr {
  freelist_offset = k * size_of pr.pageaddr_and_blocktype;
  nfree = suc (length ks);
}

module _ (pr : Pageref) (mem : ℕ → ℕ) (limit k : ℕ) (ks : List ℕ) (p : RefOk pr mem limit ks)
    (i : k < blocks_of pr.pageaddr_and_blocktype) (taken : has k ks ≡ false) where
  abbrev pub new_mem : ℕ → ℕ
  new_mem =
      linked_in mem (block_at pr.pageaddr_and_blocktype k) (size_of pr.pageaddr_and_blocktype)
        (head_at (page_of pr.pageaddr_and_blocktype) (size_of pr.pageaddr_and_blocktype) ks)

  -- Only the memory of the block changes.
  pub new_mem_lem :
      (x : ℕ)
      → (x < block_at pr.pageaddr_and_blocktype k)
        ⊎ (block_at pr.pageaddr_and_blocktype k + size_of pr.pageaddr_and_blocktype ≤ x)
      → new_mem x ≡ mem x
  new_mem_lem x out =
      let (fill, many, most, least, whole) =
        blocks_fill (type_of pr.pageaddr_and_blocktype) p.typed in
      linked_in_lem mem (block_at pr.pageaddr_and_blocktype k) (size_of pr.pageaddr_and_blocktype)
        (head_at (page_of pr.pageaddr_and_blocktype) (size_of pr.pageaddr_and_blocktype) ks) x
        (omega arith) whole out

  pub given-RefOk : RefOk (given_ref pr k ks) new_mem limit (k ∷ ks)
  given-RefOk =
      let v = pr.pageaddr_and_blocktype in
      let least = (blocks_fill (type_of v) p.typed).3 in
      let agree : (j : ℕ)
          → has j ks ≡ true
          → new_mem (page_of v + j * size_of v) ≡ mem (page_of v + j * size_of v) =
        λ j e.
          let ne : k ≢ j = λ same. clash e (subst (λ x. has x ks ≡ false) same taken) in
          elim (blocks-Apart (type_of v) p.typed k j ne) [
            | inl h ↦ new_mem_lem (page_of v + j * size_of v) (inr (omega arith))
            | inr h ↦ new_mem_lem (page_of v + j * size_of v) (inl (omega arith))
          ] in
      record {
        typed = p.typed;
        low = p.low;
        high = p.high;
        count = refl;
        start = refl;
        links = (
          put_here (fill_deadbeef (size_of v / 4) (block_at v k) mem) (block_at v k)
              (head_at (page_of v) (size_of v) ks),
          Links-frame mem new_mem (page_of v) (size_of v) ks agree p.links,
        );
        below = (i, p.below);
        unique = (taken, p.unique);
      }
