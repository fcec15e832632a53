-- ===== src/Kheap/Grow.antt =====
-- kern/lib/kheap.c: a fresh page, with all its blocks free, leaves the blocks given out as they are.
use cs325os.Base.{
  ℕ, ◌+◌, ◌-◌, ◌*◌, ◌%◌, ◌<◌, ◌≡◌, sym, ap, ◌∙◌, subst, ◌≤◌, ◌⊎◌, inl, inr, true, false, ◌==◌,
  Bool-cases, if◌then◌else◌, List, ◌∷◌, ok, arith,
}
use cs325os.Ram.{Ram, word, page_size, kseg0}
use cs325os.Ram.Pages as Pages
use cs325os.Kheap.Defs.{Kheap, put, size_at, fill_page, mkpab}
use cs325os.Kheap.Refs.{Word}
use cs325os.Kheap.Bits.{Turned, in_use}
use cs325os.Kheap.Sizes.{blocks_at, block-Inside, blocks_fill}
use cs325os.Kheap.Chain.{has, Links}
use cs325os.Kheap.Inv.{
  RefOk, IsValid, Live, pabs, limit, limit_small, page_of, type_of, size_of, blocks_of, block_at,
}
use cs325os.Kheap.Fresh.{down, has-down, link_lem, Outside, put-Outside}
use cs325os.Kheap.Blocks.{put_here, put_there, same_ref}
use cs325os.Kheap.Page.{PagesApart-cons, Sorted-cons, has_cons}
use cs325os.Kheap.Spec.{Same}
use cs325os.Kheap.Update.{put_both}
use cs325os.Kheap.Frame.{RefOk-frame, clash, fresh_ref, fresh-RefOk}

module _ (h : Kheap) (free : ℕ → List ℕ) (v : IsValid h free) (r : ℕ) (inuse : List Word)
    (u : Turned h.inuse r true inuse) (ram : Ram) (rv : Pages.IsValid ram)
    (next : ram.firstpaddr ≡ h.ram.firstpaddr + page_size) (b : ℕ) (typed : b < 8) where
  abbrev pub with_ram : Kheap
  with_ram = record h { inuse = inuse; ram = ram }

  abbrev pub grown : (ℕ → ℕ) → Kheap
  grown mem = record {
    pagerefs = put h.pagerefs r (fresh_ref (limit h) b);
    inuse = inuse;
    sizebases = put h.sizebases b (r ∷ h.sizebases b);
    allbase = r ∷ h.allbase;
    mem = mem;
    ram = ram;
  }

  unlisted : (q : ℕ) → has q h.allbase ≡ true → (r == q) ≡ false
  unlisted q e = elim (Bool-cases (r == q)) [
    | inr miss ↦ miss
    | inl hit ↦
        let at : q ≡ r = ground arith in
        let set_before : in_use h.inuse r ≡ true =
          subst (λ x. in_use h.inuse x ≡ true) at (v.used q e) in
        let clear_before = u.was in cc
  ]

  keeps : (mem : ℕ → ℕ) (q : ℕ) → has q h.allbase ≡ true → pabs (grown mem) q ≡ pabs h q
  keeps mem q e =
      ap (λ p. p.pageaddr_and_blocktype)
        (put_there h.pagerefs r (fresh_ref (limit h) b) q (unlisted q e))

  here : (mem : ℕ → ℕ) → pabs (grown mem) r ≡ mkpab (limit h) b
  here mem = ap (λ p. p.pageaddr_and_blocktype) (put_here h.pagerefs r (fresh_ref (limit h) b))

  module _ (mem : ℕ → ℕ) (links : Links mem (limit h) (size_at b) (down (blocks_at b)))
      (out : Outside (limit h) h.mem mem) where
    fresh_ok :
        (type_of (mkpab (limit h) b) ≡ b)
        × (page_of (mkpab (limit h) b) ≡ limit h)
        × RefOk (fresh_ref (limit h) b) mem (limit (grown mem)) (down (blocks_at b))
    fresh_ok =
        let aligned : limit h % page_size ≡ 0 = omega (arith, v.ram.aligned) in
        let low : kseg0 < limit h = omega (arith, v.ram.first) in
        fresh-RefOk b (limit h) (limit (grown mem)) mem typed aligned low (omega (arith, next))
          links

    grown-IsValid : IsValid (grown mem) (put free r (down (blocks_at b)))
    grown-IsValid = record {
      ram = rv;
      each = λ q listed.
          put_both (λ x p ks. has x (r ∷ h.allbase) ≡ true → RefOk p mem (limit (grown mem)) ks)
            h.pagerefs free r (fresh_ref (limit h) b) (down (blocks_at b)) (λ e. fresh_ok.2)
            (λ x miss e.
              let k = v.each x (has_cons r x h.allbase e miss) in
              RefOk-frame (h.pagerefs x) h.mem mem (limit h) (limit (grown mem)) (free x)
                (omega (arith, next)) (λ y low high. out y (inl (omega (arith, k.high)))) k)
            q listed;
      apart =
          PagesApart-cons (pabs h) (pabs (grown mem)) r h.allbase (keeps mem) v.apart (λ q e same.
            let page : page_of (pabs (grown mem) r) ≡ limit h =
              ap page_of (here mem) ∙ fresh_ok.1 in
            let high = (v.each q e).high in omega arith);
      sorted =
          Sorted-cons (pabs h) (pabs (grown mem)) r h.allbase (keeps mem) b h.sizebases typed
            (ap type_of (here mem) ∙ fresh_ok.0) v.sorted;
      once = (
        elim (Bool-cases (has r h.allbase)) [
          | inr e ↦ e
          | inl e ↦ let miss = unlisted r e in absurd (ground arith)
        ],
        v.once,
      );
      used = λ q e. u.now q ∙ still q e;
      table = u.table;
    }
      where
        still :
            (q : ℕ)
            → has q (r ∷ h.allbase) ≡ true
            → (if r == q then true else in_use h.inuse q) ≡ true
        still q e = elim (Bool-cases (r == q)) [
          | inl hit ↦ rw hit
          | inr miss ↦ rw miss (v.used q (has_cons r q h.allbase e miss))
        ]

    kept_lem : (a s : ℕ) → Live h free a s → Live (grown mem) (put free r (down (blocks_at b))) a s
    kept_lem a s g =
        let miss = unlisted g.ref g.listed in
        let same : pabs h g.ref ≡ pabs (grown mem) g.ref = sym (keeps mem g.ref g.listed) in
        record {
          ref = g.ref;
          block = g.block;
          listed = rw miss g.listed;
          inside = subst (λ w. g.block < blocks_of w) same g.inside;
          taken = ap (has g.block) (put_there free r (down (blocks_at b)) g.ref miss) ∙ g.taken;
          at = g.at ∙ ap (λ w. block_at w g.block) same;
          bytes = g.bytes ∙ ap size_of same;
        }

    only_lem : (a s : ℕ) → Live (grown mem) (put free r (down (blocks_at b))) a s → Live h free a s
    only_lem a s g = elim (Bool-cases (r == g.ref)) [
      | inl hit ↦
          let at = same_ref r g.ref hit in
          let is_b : type_of (pabs (grown mem) g.ref) ≡ b =
            ap (λ q. type_of (pabs (grown mem) q)) at ∙ ap type_of (here mem) ∙ fresh_ok.0 in
          let lt : g.block < blocks_at b = subst (λ c. g.block < blocks_at c) is_b g.inside in
          let free_block = has-down (blocks_at b) g.block lt in
          let all_free : put free r (down (blocks_at b)) g.ref ≡ down (blocks_at b) =
            ap (put free r (down (blocks_at b))) at ∙ put_here free r (down (blocks_at b)) in
          let not_free : has g.block (down (blocks_at b)) ≡ false =
            ap (has g.block) (sym all_free) ∙ g.taken in
          absurd (clash free_block not_free)
      | inr miss ↦
          let listed = has_cons r g.ref h.allbase g.listed miss in
          let same = keeps mem g.ref listed in
          record {
            ref = g.ref;
            block = g.block;
            listed = listed;
            inside = subst (λ w. g.block < blocks_of w) same g.inside;
            taken =
                ap (has g.block) (sym (put_there free r (down (blocks_at b)) g.ref miss)) ∙ g.taken;
            at = g.at ∙ ap (λ w. block_at w g.block) same;
            bytes = g.bytes ∙ ap size_of same;
          }
    ]

    grown-Same : Same h free (grown mem) (put free r (down (blocks_at b)))
    grown-Same = record {
      valid = grown-IsValid;
      kept = kept_lem;
      only = only_lem;
      pages = (
        omega (arith, next),
        λ p n below c q e. elim (Bool-cases (r == q)) [
          | inl hit ↦
              let at = same_ref r q hit in
              let page : page_of (pabs (grown mem) q) ≡ limit h =
                ap (λ x. page_of (pabs (grown mem) x)) at ∙ ap page_of (here mem) ∙ fresh_ok.1 in
              inr (omega arith)
          | inr miss ↦
              let old = has_cons r q h.allbase e miss in
              subst (λ w. (page_of w + 4096 ≤ p) ⊎ (p + n ≤ page_of w)) (sym (keeps mem q old))
                (c q old)
        ],
      );
      memory = λ a s x g low high.
          let ref_ok = v.each g.ref g.listed in
          let fit = block-Inside (type_of (pabs h g.ref)) ref_ok.typed g.block g.inside in
          out x (inl (omega (arith, ref_ok.high, g.at, g.bytes)));
    }

  -- `fill_page` adds a page with `blocks_at b` free blocks.
  pub fill_page-Same :
      (mem : ℕ → ℕ) × (fill_page with_ram r (limit h) b ≡ ok (grown mem))
      × Same h free (grown mem) (put free r (down (blocks_at b)))
      × (type_of (pabs (grown mem) r) ≡ b)
  unfolding fill_page
  fill_page-Same =
      let small = limit_small v in
      let many = (blocks_fill b typed).1 in
      let cleared : put h.mem (limit h) 0 (limit h + 0 * size_at b) ≡ 0 =
        ap (put h.mem (limit h) 0) (omega arith) ∙ put_here h.mem (limit h) 0 in
      let (mem, ran, links, out) =
        link_lem b typed (limit h) (omega arith) (omega arith) (blocks_at b - 1) 0
          (put h.mem (limit h) 0) (omega arith) (cleared, tt) in
      let first : limit h + 0 * size_at b ≡ limit h = omega arith in
      let fit = block-Inside b typed (blocks_at b - 1) (omega arith) in
      let last : (limit h + (blocks_at b - 1) * size_at b + word - limit h) % word % 65536
          ≡ (blocks_at b - 1) * size_at b =
        omega arith in
      let self : ((blocks_at b - 1) * size_at b == (blocks_at b - 1) * size_at b) ≡ true =
        ground arith in
      let linked = rw first at ran in
      let outside : Outside (limit h) h.mem mem =
        λ x o. out x o ∙ put-Outside (limit h) h.mem (limit h) 0 (omega arith) (omega arith) x o in
      (
        mem,
        rw (linked, last, self),
        grown-Same mem links outside,
        ap type_of (here mem) ∙ (fresh_ok mem links outside).0,
      )
