-- ===== src/Kheap/Update.antt =====
-- kern/lib/kheap.c: the invariant when one page and its reference change.
use cs325os.Base.{
  ℕ, ◌≡◌, sym, ap, ◌∙◌, subst, inl, inr, true, false, ◌==◌, Bool-cases, List, fun_ext, arith,
}
use cs325os.Kheap.Defs.{Kheap, Pageref, put}
use cs325os.Kheap.Chain.{has}
use cs325os.Kheap.Inv.{RefOk, IsValid, pabs, limit, PagesApart, Sorted}

-- A property of every reference and its free blocks after both have changed at `r`.
pub put_both :
    (P : ℕ → Pageref → List ℕ → Type 0) (f : ℕ → Pageref) (g : ℕ → List ℕ) (r : ℕ) (a : Pageref)
    (b : List ℕ)
    → P r a b
    → ((q : ℕ) → (r == q) ≡ false → P q (f q) (g q))
    → (q : ℕ) → P q (put f r a q) (put g r b q)
put_both P f g r a b here others q = elim (Bool-cases (r == q)) [
  | inl e ↦ let same : r ≡ q = ground arith in rw e (subst (λ x. P x a b) same here)
  | inr e ↦ rw e (others q e)
]

put-pab :
    (f : ℕ → Pageref) (r : ℕ) (pr : Pageref)
    → pr.pageaddr_and_blocktype ≡ (f r).pageaddr_and_blocktype
    → (q : ℕ) → (put f r pr q).pageaddr_and_blocktype ≡ (f q).pageaddr_and_blocktype
put-pab f r pr same q = elim (Bool-cases (r == q)) [
  | inl e ↦ let at : r ≡ q = ground arith in rw e (same ∙ ap (λ x. (f x).pageaddr_and_blocktype) at)
  | inr e ↦ rw e
]

module _ (h : Kheap) (free : ℕ → List ℕ) (r : ℕ) (pr : Pageref) (ks : List ℕ) (mem : ℕ → ℕ) where
  abbrev pub updated : Kheap
  updated = record h { pagerefs = put h.pagerefs r pr; mem = mem }

  module _ (same : pr.pageaddr_and_blocktype ≡ pabs h r) where
    pub pabs-updated : pabs updated ≡ pabs h
    pabs-updated = fun_ext (put-pab h.pagerefs r pr same)

    -- The page of `r` and its reference change, and the other pages keep their free lists.
    pub updated-IsValid :
        IsValid h free
        → RefOk pr mem (limit h) ks
        → ((q : ℕ)
            → (r == q) ≡ false
            → has q h.allbase ≡ true
            → RefOk (h.pagerefs q) mem (limit h) (free q))
        → IsValid updated (put free r ks)
    updated-IsValid v here others = record {
      ram = v.ram;
      each =
          put_both (λ q p js. has q h.allbase ≡ true → RefOk p mem (limit h) js) h.pagerefs free r
            pr ks (λ _. here) others;
      apart = subst (λ p. PagesApart p h.allbase) (sym pabs-updated) v.apart;
      sorted = subst (λ p. Sorted p h.sizebases h.allbase) (sym pabs-updated) v.sorted;
      once = v.once;
      used = v.used;
      table = v.table;
    }
