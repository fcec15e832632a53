-- ===== src/Kheap/Large.antt =====
-- kern/lib/kheap.c: requests for whole pages.
use cs325os.Base.{
  ℕ, ◌+◌, ◌-◌, ◌*◌, ◌/◌, ◌%◌, ◌≤◌, ◌<◌, ◌≡◌, refl, ◌⊎◌, inl, inr, true, false, leb, ltb, ◌==◌, List,
  ok, arith,
}
use cs325os.Ram.{Ram, word, page_size, kseg0, alloc_kpages, getppages, stealmem}
use cs325os.Ram.Pages as Pages
use cs325os.Ram.Pages.{stealmem-Stolen}
use cs325os.Kheap.Defs.{Kheap, kmalloc}
use cs325os.Kheap.Sizes.{block-Inside}
use cs325os.Kheap.Inv.{IsValid, Live, Clear, pabs, limit, type_of}
use cs325os.Kheap.Blocks.{Disjoint}
use cs325os.Kheap.Frame.{RefOk-frame}
use cs325os.Kheap.Spec.{Same}

-- The RAM changes, and its first free page is not below the one before.
later-Same :
    (h : Kheap) (free : ℕ → List ℕ) (ram : Ram)
    → IsValid h free
    → Pages.IsValid ram
    → h.ram.firstpaddr ≤ ram.firstpaddr
    → Same h free (record h { ram = ram }) free
later-Same h free ram v rv le = record {
  valid = record {
    ram = rv;
    each = λ r e.
        RefOk-frame (h.pagerefs r) h.mem h.mem (limit h) (ram.firstpaddr + kseg0) (free r)
          (omega arith) (λ x low high. refl) (v.each r e);
    apart = v.apart;
    sorted = v.sorted;
    once = v.once;
    used = v.used;
    table = v.table;
  };
  kept = λ a s g. g;
  only = λ a s g. g;
  memory = λ a s x g low high. refl;
  pages = (omega arith, λ p n below c. c);
}

-- Whole pages for `sz` bytes from `p` on: they meet no block given out, and none given out later.
pub record PagesAt (h : Kheap) (free : ℕ → List ℕ) (sz p : ℕ) (h' : Kheap) : Type 0 where
  pub aligned : p % page_size ≡ 0
  pub beyond : (a s : ℕ) → Live h free a s → Disjoint a s p sz
  pub room : p + sz ≤ limit h'
  pub same : Same h free h' free
  pub clear : Clear h' p sz

pub kmalloc-PagesAt :
    (h : Kheap) (free : ℕ → List ℕ) (sz : ℕ)
    → IsValid h free
    → 2048 ≤ sz
    → sz ≤ 2147479552
    → ((h' : Kheap) × (kmalloc h sz ≡ ok (limit h, h')) × PagesAt h free sz (limit h) h')
      ⊎ (kmalloc h sz ≡ ok (0, h))
unfolding kmalloc alloc_kpages getppages
kmalloc-PagesAt h free sz v large small =
    let is_large : leb 2048 sz ≡ true = ground arith in
    let sum : (sz + 4096 - 1) % word / 4096 ≡ (sz + 4095) / 4096 = omega arith in
    elim (stealmem-Stolen h.ram ((sz + 4095) / 4096) v.ram (omega arith)) [
      | inr (none_left, short) ↦ inr (rw (is_large, sum, none_left))
      | inl (ram, stolen, s, rv) ↦
          let some_page : (h.ram.firstpaddr == 0) ≡ false = ground (arith, v.ram.first) in
          let seen : (h.ram.firstpaddr + kseg0) % word ≡ limit h =
            omega (arith, v.ram.within, v.ram.small) in
          inl (
            record h { ram = ram },
            rw (is_large, sum, stolen, some_page, seen),
            record {
              aligned = omega (arith, v.ram.aligned);
              beyond = λ a n g.
                  let p = v.each g.ref g.listed in
                  let fit = block-Inside (type_of (pabs h g.ref)) p.typed g.block g.inside in
                  inl (omega (arith, p.high, g.at, g.bytes));
              room = omega (arith, s.next);
              same = later-Same h free ram v rv (omega (arith, s.next));
              clear = λ r e. inl (v.each r e).high;
            },
          )
    ]

-- A request of the last 4095 sizes of 32 bits is rounded to no page at all, and succeeds: the result is the
-- address of the first free page, which stays free.
pub kmalloc_wraps :
    (h : Kheap) (free : ℕ → List ℕ) (sz : ℕ)
    → IsValid h free
    → 4294963201 ≤ sz
    → sz < word
    → kmalloc h sz ≡ ok (limit h, h)
unfolding kmalloc alloc_kpages getppages stealmem
kmalloc_wraps h free sz v large small =
    let is_large : leb 2048 sz ≡ true = ground arith in
    let no_page : (sz + 4096 - 1) % word / 4096 ≡ 0 = omega arith in
    let stays : (h.ram.firstpaddr + 0 * 4096 % word) % word ≡ h.ram.firstpaddr =
      omega (arith, v.ram.within, v.ram.small) in
    let enough : ltb h.ram.lastpaddr h.ram.firstpaddr ≡ false = ground (arith, v.ram.within) in
    let some_page : (h.ram.firstpaddr == 0) ≡ false = ground (arith, v.ram.first) in
    let seen : (h.ram.firstpaddr + kseg0) % word ≡ limit h =
      omega (arith, v.ram.within, v.ram.small) in
    rw (is_large, no_page, stays, enough, some_page, seen)
