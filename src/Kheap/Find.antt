-- ===== src/Kheap/Find.antt =====
-- kern/lib/kheap.c: the searches through the lists of pages.
use cs325os.Base.{
  ℕ, ◌+◌, ◌%◌, ◌≤◌, ◌<◌, ◌≡◌, ◌≢◌, refl, sym, ap, ◌∙◌, subst, ◌⊎◌, inl, inr, true, false, ltb, leb,
  ◌==◌, ◌&&◌, Bool-cases, List, [], ◌∷◌, length, none, some, ok, arith,
}
use cs325os.Ram.{word}
use cs325os.Kheap.Defs.{Kheap, find_free, find_page}
use cs325os.Kheap.Chain.{has, list_cases}
use cs325os.Kheap.Inv.{pabs, of_type, type_of, page_of}

pub has-of_type :
    (pab : ℕ → ℕ) (b : ℕ) (l : List ℕ) (r : ℕ)
    → has r (of_type pab b l) ≡ true
    → (has r l ≡ true) × (type_of (pab r) ≡ b)
has-of_type pab b [] r e = absurd (ground (arith, e))
has-of_type pab b (q ∷ l) r e = elim (Bool-cases (type_of (pab q) == b)) [
  | inr other ↦
      let rest : has r (of_type pab b l) ≡ true = rw other at e in
      let (listed, typed) = has-of_type pab b l r rest in (ground arith, typed)
  | inl same ↦
      let here : has r (q ∷ of_type pab b l) ≡ true = rw same at e in
      elim (Bool-cases (q == r)) [
        | inl hit ↦
            let at : q ≡ r = ground arith in
            (rw hit, ap (λ x. type_of (pab x)) (sym at) ∙ ground arith)
        | inr miss ↦
            let rest : has r (of_type pab b l) ≡ true = ground arith in
            let (listed, typed) = has-of_type pab b l r rest in (rw miss listed, typed)
      ]
]

module _ (h : Kheap) (free : ℕ → List ℕ) (b : ℕ) where
  -- The first page of the list that has a free block, or none has.
  pub find_free_lem :
      (l : List ℕ)
      → ((r : ℕ)
          → has r l ≡ true
          → (type_of (pabs h r) ≡ b) × ((h.pagerefs r).nfree ≡ length (free r)))
      → (find_free h b l ≡ ok none)
        ⊎ ((r : ℕ) × (k : ℕ) × (ks : List ℕ) × (find_free h b l ≡ ok (some r))
            × (has r l ≡ true)
            × (free r ≡ k ∷ ks))
  unfolding find_free
  find_free_lem [] all = inl refl
  find_free_lem (r ∷ l) all =
      let self : (r == r) ≡ true = ground arith in
      let (typed, count) = all r (rw self) in
      let right : (type_of (pabs h r) == b) ≡ true = ground arith in
      let rest = find_free_lem l (λ q e. all q (ground (arith, e))) in
      elim (list_cases (free r)) [
        | inl none_left ↦
            let empty : ltb 0 (h.pagerefs r).nfree ≡ false = rw (count, none_left) in
            elim rest [
              | inl e ↦ inl (rw (right, empty, e))
              | inr (q, k, ks, e, listed, some_left) ↦
                  inr (q, k, ks, rw (right, empty, e), ground arith, some_left)
            ]
        | inr (k, ks, some_left) ↦
            let full : ltb 0 (h.pagerefs r).nfree ≡ true = rw (count, some_left) (ground arith) in
            inr (r, k, ks, rw (right, full), rw self, some_left)
      ]

-- Where `find_page` looks at a page: within the memory that the kernel sees.
pub record Placed (v : ℕ) : Type 0 where
  pub typed : type_of v < 8
  pub high : page_of v + 4096 < word

module _ (h : Kheap) (a : ℕ) where
  -- The search finds the page that the address is in.
  pub find_page_lem :
      (l : List ℕ) (r : ℕ)
      → ((q : ℕ) → has q l ≡ true → Placed (pabs h q))
      → ((q : ℕ) → has q l ≡ true → q ≢ r → page_of (pabs h q) ≢ page_of (pabs h r))
      → has r l ≡ true
      → page_of (pabs h r) ≤ a
      → a < page_of (pabs h r) + 4096
      → find_page h a l ≡ ok (some r)
  unfolding find_page
  find_page_lem [] r placed apart listed low high = absurd (ground (arith, listed))
  find_page_lem (q ∷ l) r placed apart listed low high =
      let self : (q == q) ≡ true = ground arith in
      let p = placed q (rw self) in
      let typed : ltb (type_of (pabs h q)) 8 ≡ true = ground (arith, p.typed) in
      let top : (page_of (pabs h q) + 4096) % word ≡ page_of (pabs h q) + 4096 =
        omega (arith, p.high) in
      elim (Bool-cases (q == r)) [
        | inl hit ↦
            let at : r ≡ q = ground arith in
            let low' : leb (page_of (pabs h q)) a ≡ true =
              subst (λ x. leb (page_of (pabs h x)) a ≡ true) at (ground arith) in
            let high' : ltb a (page_of (pabs h q) + 4096) ≡ true =
              subst (λ x. ltb a (page_of (pabs h x) + 4096) ≡ true) at (ground arith) in
            rw (typed, top, low', high', at)
        | inr miss ↦
            let ne : q ≢ r = ground arith in
            let other = apart q (rw self) ne in
            let out : (leb (page_of (pabs h q)) a && ltb a (page_of (pabs h q) + 4096)) ≡ false =
              ground arith in
            let rest : has r l ≡ true = ground (arith, listed) in
            rw (typed, top, out)
              (find_page_lem l r (λ x e. placed x (ground arith)) (λ x e. apart x (ground arith))
                rest low high)
      ]

  -- An address in none of the pages is not found.
  pub find_page-none :
      (l : List ℕ)
      → ((q : ℕ) → has q l ≡ true → Placed (pabs h q))
      → ((q : ℕ) → has q l ≡ true → (a < page_of (pabs h q)) ⊎ (page_of (pabs h q) + 4096 ≤ a))
      → find_page h a l ≡ ok none
  unfolding find_page
  find_page-none [] placed away = refl
  find_page-none (q ∷ l) placed away =
      let self : (q == q) ≡ true = ground arith in
      let p = placed q (rw self) in
      let typed : ltb (type_of (pabs h q)) 8 ≡ true = ground (arith, p.typed) in
      let top : (page_of (pabs h q) + 4096) % word ≡ page_of (pabs h q) + 4096 =
        omega (arith, p.high) in
      let far = away q (rw self) in
      let out : (leb (page_of (pabs h q)) a && ltb a (page_of (pabs h q) + 4096)) ≡ false =
        ground arith in
      rw (typed, top, out)
        (find_page-none l (λ x e. placed x (ground arith)) (λ x e. away x (ground arith)))
