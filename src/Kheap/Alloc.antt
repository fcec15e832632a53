-- ===== src/Kheap/Alloc.antt =====
-- kern/lib/kheap.c: `kmalloc` gives out a block that was not given out.
use cs325os.Base.{
  ℕ, zero, suc, ◌+◌, ◌≤◌, ◌<◌, ◌≡◌, refl, sym, ◌∙◌, subst, inl, inr, true, false, leb, ◌==◌,
  Bool-cases, List, ◌∷◌, length, Result, ok, arith,
}
use cs325os.Ram.{Ram, page_size}
use cs325os.Ram.Pages as Pages
use cs325os.Ram.Pages.{alloc_kpages-one}
use cs325os.Kheap.Defs.{Kheap, put, size_at, new_page, with_page, subpage_kmalloc, kmalloc}
use cs325os.Kheap.Refs.{Word}
use cs325os.Kheap.Bits.{Turned, IsTable, in_use, allocpageref_lem, freepageref_lem}
use cs325os.Kheap.Sizes.{blocks_at, blocks_fill, blocktype-Fits}
use cs325os.Kheap.Chain.{has}
use cs325os.Kheap.Inv.{IsValid, pabs, limit, type_of, size_of}
use cs325os.Kheap.Find.{has-of_type, find_free_lem}
use cs325os.Kheap.Fresh.{down}
use cs325os.Kheap.Blocks.{put_here, same_ref}
use cs325os.Kheap.Grow.{grown, fill_page-Same}
use cs325os.Kheap.Frame.{clash}
use cs325os.Kheap.Take.{doalloc-Allocated}
use cs325os.Kheap.Spec.{Same, Allocated, Same-Allocated}

-- Either a block is allocated, or the result is NULL and the same blocks are given out.
pub data Allocates (h : Kheap) (free : ℕ → List ℕ) (sz : ℕ) (result : Result (ℕ × Kheap))
    : Type 0 where
  block :
      (p : ℕ) (h' : Kheap) (free' : ℕ → List ℕ)
      → result ≡ ok (p, h')
      → Allocated h free sz p h' free'
      → Allocates h free sz result
  null : (h' : Kheap) → result ≡ ok (0, h') → Same h free h' free → Allocates h free sz result

-- The table of references changes, but the listed references stay in use.
retabled :
    (h : Kheap) (free : ℕ → List ℕ) (inuse : List Word)
    → IsValid h free
    → IsTable inuse
    → ((q : ℕ) → has q h.allbase ≡ true → in_use inuse q ≡ true)
    → Same h free (record h { inuse = inuse }) free
retabled h free inuse v t used = record {
  valid = record {
    ram = v.ram;
    each = v.each;
    apart = v.apart;
    sorted = v.sorted;
    once = v.once;
    used = used;
    table = t;
  };
  kept = λ a s g. g;
  only = λ a s g. g;
  memory = λ a s x g low high. refl;
  pages = (omega arith, λ p n below c. c);
}

down_cases : (n : ℕ) → 0 < n → (k : ℕ) × (ks : List ℕ) × (down n ≡ k ∷ ks)
down_cases zero lt = absurd (omega arith)
down_cases (suc n) lt = (n, down n, refl)

module _ (h : Kheap) (free : ℕ → List ℕ) (v : IsValid h free) (sz b : ℕ) (typed : b < 8)
    (fits : sz ≤ size_at b) where
  -- With a fresh page.
  fresh_lem :
      (r : ℕ) (inuse : List Word) (ram : Ram)
      → Turned h.inuse r true inuse
      → Pages.IsValid ram
      → ram.firstpaddr ≡ h.ram.firstpaddr + page_size
      → Allocates h free sz (with_page h b r inuse (limit h, ram))
  unfolding with_page
  fresh_lem r inuse ram u rv next =
      let (mem, filled, same, is_b) = fill_page-Same h free v r inuse u ram rv next b typed in
      let many = (blocks_fill b typed).1 in
      let (k, ks, some) = down_cases (blocks_at b) (omega arith) in
      let h' = grown h free v r inuse u ram rv next b typed mem in
      let free' = put free r (down (blocks_at b)) in
      let listed : has r (r ∷ h.allbase) ≡ true =
        (let self : (r == r) ≡ true = ground arith in rw self) in
      let room : sz ≤ size_of (pabs h' r) = subst (λ x. sz ≤ size_at x) (sym is_b) fits in
      let (ran, t) =
        doalloc-Allocated h' free' r k ks same.valid listed
          (put_here free r (down (blocks_at b)) ∙ some) sz room in
      let some_page : (limit h == 0) ≡ false = ground arith in
      block _ _ _ (rw (some_page, filled, ran)) (Same-Allocated same t)

  -- Without one.
  short_lem :
      (r : ℕ) (inuse : List Word)
      → Turned h.inuse r true inuse
      → Allocates h free sz (with_page h b r inuse (0, h.ram))
  unfolding with_page
  short_lem r inuse u =
      let self : (r == r) ≡ true = ground arith in
      let (inuse', ran, t) = freepageref_lem inuse r u.table (u.now r ∙ rw self) in
      let used : (q : ℕ) → has q h.allbase ≡ true → in_use inuse' q ≡ true = λ q e.
        elim (Bool-cases (r == q)) [
          | inl hit ↦
              let before : in_use h.inuse r ≡ true =
                subst (λ x. in_use h.inuse x ≡ true) (same_ref r q hit) (v.used q e) in
              absurd (clash before u.was)
          | inr miss ↦ t.now q ∙ rw miss (u.now q ∙ rw miss (v.used q e))
        ] in
      null _ (rw ran) (retabled h free inuse' v t.table used)

  new_page-Allocates : Allocates h free sz (new_page h b)
  unfolding new_page
  new_page-Allocates = elim (allocpageref_lem h.inuse v.table) [
    | inl e ↦ null h (rw e) (retabled h free h.inuse v v.table v.used)
    | inr (r, inuse, e, u) ↦ elim (alloc_kpages-one h.ram v.ram) [
      | inl (ram, given, rv, next) ↦ rw (e, given) (fresh_lem r inuse ram u rv next)
      | inr short ↦ rw (e, short) (short_lem r inuse u)
    ]
  ]

-- In a valid heap a request of less than 2048 bytes either gets a block of at least that size, which was not
-- given out before, or NULL. In both cases the heap stays valid, the blocks given out before stay
-- given out with their contents, and no others are added.
pub kmalloc-Allocates :
    (h : Kheap) (free : ℕ → List ℕ) (sz : ℕ)
    → IsValid h free
    → sz < 2048
    → Allocates h free sz (kmalloc h sz)
unfolding kmalloc subpage_kmalloc
kmalloc-Allocates h free sz v small =
    let not_large : leb 2048 sz ≡ false = ground arith in
    elim (blocktype-Fits sz) [
      | inr (large, e) ↦ absurd (omega arith)
      | inl (b, e, (typed, fits, least)) ↦
          let sorted = v.sorted b typed in
          let members : (r : ℕ)
              → has r (h.sizebases b) ≡ true
              → (has r h.allbase ≡ true) × (type_of (pabs h r) ≡ b) =
            λ r listed.
              has-of_type (pabs h) b h.allbase r (subst (λ l. has r l ≡ true) sorted listed) in
          let counts : (r : ℕ)
              → has r (h.sizebases b) ≡ true
              → (type_of (pabs h r) ≡ b) × ((h.pagerefs r).nfree ≡ length (free r)) =
            λ r listed. ((members r listed).1, (v.each r (members r listed).0).count) in
          elim (find_free_lem h free b (h.sizebases b) counts) [
            | inl none_free ↦
                rw (not_large, e, none_free) (new_page-Allocates h free v sz b typed fits)
            | inr (r, k, ks, found, listed, some) ↦
                let (in_all, is_b) = members r listed in
                let room : sz ≤ size_of (pabs h r) = subst (λ x. sz ≤ size_at x) (sym is_b) fits in
                let (ran, t) = doalloc-Allocated h free r k ks v in_all some sz room in
                block _ _ _ (rw (not_large, e, found, ran)) t
          ]
    ]
