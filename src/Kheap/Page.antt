-- ===== src/Kheap/Page.antt =====
-- kern/lib/kheap.c: a fresh page joins the lists.
use cs325os.Base.{
  ℕ, ◌<◌, ◌≡◌, ◌≢◌, refl, sym, ap, ◌∙◌, subst, inl, inr, true, false, ◌==◌, Bool-cases, List, [],
  ◌∷◌, arith,
}
use cs325os.Kheap.Defs.{put}
use cs325os.Kheap.Chain.{has}
use cs325os.Kheap.Inv.{PagesApart, Sorted, of_type, page_of, type_of}

-- `p` and `pab` agree on the references of `l`.
abbrev Agree : List ℕ → (ℕ → ℕ) → (ℕ → ℕ) → Type 0
Agree l pab p = (q : ℕ) → has q l ≡ true → p q ≡ pab q

of_type-Agree :
    (pab p : ℕ → ℕ) (b : ℕ) (l : List ℕ) → Agree l pab p → of_type p b l ≡ of_type pab b l
of_type-Agree pab p b [] agree = refl
of_type-Agree pab p b (q ∷ l) agree =
    let self : (q == q) ≡ true = ground arith in
    let rest = of_type-Agree pab p b l (λ x e. agree x (ground arith)) in
    rw (agree q (rw self), rest)

pub has_cons : (r q : ℕ) (l : List ℕ) → has q (r ∷ l) ≡ true → (r == q) ≡ false → has q l ≡ true
has_cons r q l e miss = rw miss at e

module _ (pab p : ℕ → ℕ) (r : ℕ) (l : List ℕ) (agree : Agree l pab p) where
  pub PagesApart-cons :
      PagesApart pab l
      → ((q : ℕ) → has q l ≡ true → page_of (p r) ≢ page_of (pab q))
      → PagesApart p (r ∷ l)
  PagesApart-cons apart alone x y lx ly ne = elim (Bool-cases (r == x)) [
    | inl e ↦
        let at : r ≡ x = ground arith in
        let miss : (r == y) ≡ false = ground arith in
        let ly' = has_cons r y l ly miss in
        let new : page_of (p x) ≢ page_of (pab y) =
          subst (λ z. page_of (p z) ≢ page_of (pab y)) at (alone y ly') in
        λ same. new (same ∙ ap page_of (agree y ly'))
    | inr e ↦
        let lx' = has_cons r x l lx e in
        elim (Bool-cases (r == y)) [
          | inl d ↦
              let at : r ≡ y = ground arith in
              let new : page_of (p y) ≢ page_of (pab x) =
                subst (λ z. page_of (p z) ≢ page_of (pab x)) at (alone x lx') in
              λ same. new (sym same ∙ ap page_of (agree x lx'))
          | inr d ↦
              let ly' = has_cons r y l ly d in
              λ same.
                apart x y lx' ly' ne
                  (ap page_of (sym (agree x lx')) ∙ same ∙ ap page_of (agree y ly'))
        ]
  ]

  pub Sorted-cons :
      (b : ℕ) (sizebases : ℕ → List ℕ)
      → b < 8
      → type_of (p r) ≡ b
      → Sorted pab sizebases l
      → Sorted p (put sizebases b (r ∷ sizebases b)) (r ∷ l)
  Sorted-cons b sizebases typed is_b sorted c lt = elim (Bool-cases (b == c)) [
    | inl e ↦
        let at : b ≡ c = ground arith in
        let hit : (type_of (p r) == c) ≡ true = ground (arith, is_b) in
        rw (e, hit)
          (ap (◌∷◌ r)
            (sorted b typed ∙ ap (λ x. of_type pab x l) at ∙ sym (of_type-Agree pab p c l agree)))
    | inr e ↦
        let miss : (type_of (p r) == c) ≡ false = ground (arith, is_b) in
        rw (e, miss) (sorted c lt ∙ sym (of_type-Agree pab p c l agree))
  ]
