-- ===== src/Kheap/Frame.antt =====
-- kern/lib/kheap.c: a reference when memory elsewhere changes, and the reference of a fresh page.
use cs325os.Base.{
  ℕ, zero, suc, ◌+◌, ◌-◌, ◌*◌, ◌%◌, ◌≤◌, ◌<◌, ◌≡◌, sym, ap, ◌∙◌, subst, Bool, true, false, List,
  arith,
}
use cs325os.Ram.{page_size, kseg0}
use cs325os.Kheap.Defs.{Pageref, size_at, mkpab}
use cs325os.Kheap.Sizes.{blocks_at, block-Inside, blocks_fill}
use cs325os.Kheap.Chain.{offset_of, has, has-lt, AllBelow, Links, Links-frame}
use cs325os.Kheap.Inv.{RefOk, limit, page_of, type_of, size_of, blocks_of}
use cs325os.Kheap.Fresh.{down, down-AllBelow, down-Unique, length-down}

-- Memory that agrees on a page has the same free list there.
pub RefOk-frame :
    (pr : Pageref) (mem mem' : ℕ → ℕ) (limit limit' : ℕ) (ks : List ℕ)
    → limit ≤ limit'
    → ((x : ℕ)
        → page_of pr.pageaddr_and_blocktype ≤ x
        → x < page_of pr.pageaddr_and_blocktype + 4096
        → mem' x ≡ mem x)
    → RefOk pr mem limit ks
    → RefOk pr mem' limit' ks
RefOk-frame pr mem mem' limit limit' ks le agree ok_before =
    let v = pr.pageaddr_and_blocktype in
    let least = (blocks_fill (type_of v) ok_before.typed).3 in
    let at_block : (k : ℕ)
        → has k ks ≡ true
        → mem' (page_of v + k * size_of v) ≡ mem (page_of v + k * size_of v) =
      λ k e.
        let lt = has-lt (blocks_of v) ks k ok_before.below e in
        let fit = block-Inside (type_of v) ok_before.typed k lt in
        agree (page_of v + k * size_of v) (omega arith) (omega arith) in
    record {
      typed = ok_before.typed;
      low = ok_before.low;
      high = omega (arith, ok_before.high);
      count = ok_before.count;
      start = ok_before.start;
      links = Links-frame mem mem' (page_of v) (size_of v) ks at_block ok_before.links;
      below = ok_before.below;
      unique = ok_before.unique;
    }

pub clash : {b : Bool} → b ≡ true → b ≡ false → ⊥
clash e d = cc

-- The reference of a fresh page.
abbrev pub fresh_ref : ℕ → ℕ → Pageref
fresh_ref prpage b = record {
  pageaddr_and_blocktype = mkpab prpage b;
  freelist_offset = (blocks_at b - 1) * size_at b;
  nfree = blocks_at b;
}

pub fresh-RefOk :
    (b prpage limit : ℕ) (mem : ℕ → ℕ)
    → b < 8
    → prpage % page_size ≡ 0
    → kseg0 < prpage
    → prpage + 4096 ≤ limit
    → Links mem prpage (size_at b) (down (blocks_at b))
    → (type_of (mkpab prpage b) ≡ b)
      × (page_of (mkpab prpage b) ≡ prpage)
      × RefOk (fresh_ref prpage b) mem limit (down (blocks_at b))
fresh-RefOk b prpage limit mem typed aligned low high links =
    let is_b : type_of (mkpab prpage b) ≡ b = omega arith in
    let is_page : page_of (mkpab prpage b) ≡ prpage = omega arith in
    let many = (blocks_fill b typed).1 in
    (
      is_b,
      is_page,
      record {
        typed = omega arith;
        low = omega arith;
        high = omega arith;
        count = sym (length-down (blocks_at b));
        start =
            start_at (blocks_at b) (omega arith)
            ∙ ap (λ x. offset_of (size_at x) (down (blocks_at b))) (sym is_b);
        links = rw (is_b, is_page) links;
        below =
            subst (λ x. AllBelow (blocks_at x) (down (blocks_at b))) (sym is_b)
              (down-AllBelow (blocks_at b));
        unique = down-Unique (blocks_at b);
      },
    )
  where
    start_at : (n : ℕ) → 0 < n → (n - 1) * size_at b ≡ offset_of (size_at b) (down n)
    start_at zero lt = absurd (omega arith)
    start_at (suc n) lt = let one_less : suc n - 1 ≡ n = omega arith in rw one_less
