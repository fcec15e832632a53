-- ===== src/Kheap/Writes.antt =====
-- kern/lib/kheap.c: the heap before its first use, and writes of the clients.
use cs325os.Base.{
  ℕ, ◌+◌, ◌*◌, ◌≤◌, ◌<◌, ◌≡◌, ◌≢◌, refl, subst, ◌⊎◌, inl, inr, true, false, ◌==◌, Bool-cases, List,
  [], arith,
}
use cs325os.Ram.{Ram}
use cs325os.Ram.Pages as Pages
use cs325os.Kheap.Defs.{boot, Kheap, put}
use cs325os.Kheap.Sizes.{blocks_fill, block-Inside}
use cs325os.Kheap.Chain.{has, has-lt, Links-frame}
use cs325os.Kheap.Inv.{IsValid, Live, Clear, pabs, type_of, page_of, size_of, blocks_of}
use cs325os.Kheap.Blocks.{blocks-Disjoint, same_ref, differs}
use cs325os.Kheap.Frame.{clash}

pub boot-IsValid : (ram : Ram) (mem : ℕ → ℕ) → Pages.IsValid ram → IsValid (boot ram mem) (λ r. [])
boot-IsValid ram mem v = record {
  ram = v;
  each = λ r e. absurd (clash e refl);
  apart = λ r q e. absurd (clash e refl);
  sorted = λ b lt. refl;
  once = tt;
  used = λ r e. absurd (clash e refl);
  table = record {
    words = refl;
    bits = (refl, (refl, (refl, (refl, (refl, (refl, (refl, (refl, tt))))))));
  };
}

-- A write to a word that is not the next pointer of a free block.
pub away-IsValid :
    (h : Kheap) (free : ℕ → List ℕ) (x w : ℕ)
    → IsValid h free
    → ((r k : ℕ)
        → has r h.allbase ≡ true
        → has k (free r) ≡ true
        → (x == page_of (pabs h r) + k * size_of (pabs h r)) ≡ false)
    → IsValid (record h { mem = put h.mem x w }) free
away-IsValid h free x w v away = record {
  ram = v.ram;
  each = λ r e.
      let p = v.each r e in
      record {
        typed = p.typed;
        low = p.low;
        high = p.high;
        count = p.count;
        start = p.start;
        links =
            Links-frame h.mem (put h.mem x w) (page_of (pabs h r)) (size_of (pabs h r)) (free r)
              (λ k free_k. rw (away r k e free_k)) p.links;
        below = p.below;
        unique = p.unique;
      };
  apart = v.apart;
  sorted = v.sorted;
  once = v.once;
  used = v.used;
  table = v.table;
}

hits_not : (x y : ℕ) → (x < y) ⊎ (y < x) → (x == y) ≡ false
hits_not x y ne = ground arith

-- A write to a block that is given out.
pub written-IsValid :
    (h : Kheap) (free : ℕ → List ℕ) (a s x w : ℕ)
    → IsValid h free
    → Live h free a s
    → a ≤ x
    → x < a + s
    → IsValid (record h { mem = put h.mem x w }) free
written-IsValid h free a s x w v g low high = away-IsValid h free x w v λ r k e free_k.
    let p = v.each r e in
    let least = (blocks_fill (type_of (pabs h r)) p.typed).3 in
    let inside = has-lt (blocks_of (pabs h r)) (free r) k p.below free_k in
    let other : (r ≢ g.ref) ⊎ (k ≢ g.block) = elim (Bool-cases (r == g.ref)) [
      | inr miss ↦ inl (differs r g.ref miss)
      | inl hit ↦ inr λ same.
          clash (subst (λ j. has j (free r) ≡ true) same free_k)
            (subst (λ q. has g.block (free q) ≡ false) (same_ref r g.ref hit) g.taken)
    ] in
    elim (blocks-Disjoint (pabs h) h.allbase v.apart (λ q l. (v.each q l).typed) r g.ref k g.block e
      g.listed inside g.inside other) [
        | inl before ↦
            hits_not x (page_of (pabs h r) + k * size_of (pabs h r)) (inr (omega (arith, g.at)))
        | inr behind ↦
            hits_not x (page_of (pabs h r) + k * size_of (pabs h r))
              (inl (omega (arith, g.at, g.bytes)))
      ]

-- A write to memory that is in none of the heap's pages.
pub outside-IsValid :
    (h : Kheap) (free : ℕ → List ℕ) (a s x w : ℕ)
    → IsValid h free
    → Clear h a s
    → a ≤ x
    → x < a + s
    → IsValid (record h { mem = put h.mem x w }) free
outside-IsValid h free a s x w v c low high = away-IsValid h free x w v λ r k e free_k.
    let p = v.each r e in
    let inside = has-lt (blocks_of (pabs h r)) (free r) k p.below free_k in
    let fit = block-Inside (type_of (pabs h r)) p.typed k inside in
    let least = (blocks_fill (type_of (pabs h r)) p.typed).3 in
    elim (c r e) [
      | inl behind ↦ hits_not x (page_of (pabs h r) + k * size_of (pabs h r)) (inr (omega arith))
      | inr before ↦ hits_not x (page_of (pabs h r) + k * size_of (pabs h r)) (inl (omega arith))
    ]
