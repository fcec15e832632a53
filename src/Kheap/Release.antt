-- ===== src/Kheap/Release.antt =====
-- kern/lib/kheap.c: a page whose blocks are all free leaves the lists.
use cs325os.Base.{
  ℕ, ◌<◌, ◌≡◌, refl, sym, ap, ◌∙◌, subst, inl, inr, true, false, ltb, ◌==◌, Bool-cases,
  if◌then◌else◌, List, [], ◌∷◌, length, ok, arith,
}
use cs325os.Ram
use cs325os.Kheap.Defs.{Kheap, put, unlink, release, remove_lists}
use cs325os.Kheap.Refs.{Word}
use cs325os.Kheap.Bits.{Turned, freepageref_lem}
use cs325os.Kheap.Chain.{has, Unique, Unique-unlink, has_all}
use cs325os.Kheap.Inv.{
  RefOk, IsValid, Given, Live, pabs, of_type, limit, type_of, page_of, blocks_of, Sorted,
}
use cs325os.Kheap.Blocks.{same_ref}
use cs325os.Kheap.Frame.{clash}
use cs325os.Kheap.Spec.{Same}

has-unlink : (r : ℕ) (l : List ℕ) (q : ℕ) → has q (unlink r l) ≡ true → has q l ≡ true
unfolding unlink
has-unlink r [] q e = e
has-unlink r (x ∷ l) q e = elim (Bool-cases (x == r)) [
  | inl hit ↦ let rest : has q l ≡ true = rw hit at e in ground arith
  | inr miss ↦
      let rest : has q (x ∷ unlink r l) ≡ true = rw miss at e in
      elim (Bool-cases (x == q)) [
        | inl here ↦ rw here
        | inr there ↦
            let deep : has q (unlink r l) ≡ true = rw there at rest in
            rw there (has-unlink r l q deep)
      ]
]

has-unlink_other :
    (r : ℕ) (l : List ℕ) (q : ℕ) → (r == q) ≡ false → has q l ≡ true → has q (unlink r l) ≡ true
unfolding unlink
has-unlink_other r [] q ne e = e
has-unlink_other r (x ∷ l) q ne e = elim (Bool-cases (x == r)) [
  | inl hit ↦
      let there : (x == q) ≡ false = ground arith in
      let deep : has q l ≡ true = rw there at e in rw hit deep
  | inr miss ↦ elim (Bool-cases (x == q)) [
    | inl here ↦ rw (miss, here)
    | inr there ↦
        let deep : has q l ≡ true = rw there at e in
        rw (miss, there) (has-unlink_other r l q ne deep)
  ]
]

has-unlink_self : (r : ℕ) (l : List ℕ) → Unique l → has r (unlink r l) ≡ false
unfolding unlink
has-unlink_self r [] u = refl
has-unlink_self r (x ∷ l) u = elim (Bool-cases (x == r)) [
  | inl hit ↦ rw hit (ap (λ y. has y l) (same_ref x r hit) ∙ u.0)
  | inr miss ↦ rw (miss, miss) (has-unlink_self r l u.1)
]

-- The lists by size lose the reference as the list of all does.
of_type-unlink :
    (pab : ℕ → ℕ) (r b : ℕ) (l : List ℕ)
    → of_type pab b (unlink r l)
      ≡ (if type_of (pab r) == b then unlink r (of_type pab b l) else of_type pab b l)
unfolding unlink
of_type-unlink pab r b [] = ground arith
of_type-unlink pab r b (x ∷ l) =
    let rest = of_type-unlink pab r b l in
    elim (Bool-cases (x == r)) [
      | inl hit ↦
          let at : pab r ≡ pab x = ap pab (same_ref x r hit) in
          elim (Bool-cases (type_of (pab x) == b)) [
            | inl typed ↦ rw (hit, at, typed, hit)
            | inr other ↦ rw (hit, at, other)
          ]
      | inr miss ↦ elim (Bool-cases (type_of (pab r) == b)) [
        | inl mine ↦ elim (Bool-cases (type_of (pab x) == b)) [
          | inl typed ↦ rw (miss, typed, rest, mine, miss)
          | inr other ↦ rw (miss, other, rest, mine)
        ]
        | inr not_mine ↦ elim (Bool-cases (type_of (pab x) == b)) [
          | inl typed ↦ rw (miss, typed, rest, not_mine)
          | inr other ↦ rw (miss, other, rest, not_mine)
        ]
      ]
    ]

relisted :
    {pab : ℕ → ℕ} {l l' : List ℕ} {free : ℕ → List ℕ} {a s : ℕ} (g : Given pab l free a s)
    → has g.ref l' ≡ true
    → Given pab l' free a s
relisted g e = record {
  ref = g.ref;
  block = g.block;
  listed = e;
  inside = g.inside;
  taken = g.taken;
  at = g.at;
  bytes = g.bytes;
}

module _ (h : Kheap) (free : ℕ → List ℕ) (v : IsValid h free) (r : ℕ)
    (listed : has r h.allbase ≡ true) (full : length (free r) ≡ blocks_of (pabs h r)) where
  released : List Word → Kheap
  released inuse = record h {
    sizebases = put h.sizebases (type_of (pabs h r)) (unlink r (h.sizebases (type_of (pabs h r))));
    allbase = unlink r h.allbase;
    inuse = inuse;
  }

  page_ok : RefOk (h.pagerefs r) h.mem (limit h) (free r)
  page_ok = v.each r listed

  differs : (q : ℕ) → has q (unlink r h.allbase) ≡ true → (r == q) ≡ false
  differs q e = elim (Bool-cases (r == q)) [
    | inr miss ↦ miss
    | inl hit ↦
        let gone = has-unlink_self r h.allbase v.once in
        absurd (clash (subst (λ x. has x (unlink r h.allbase) ≡ true) (same_ref r q hit) e) gone)
  ]

  sorted_lem :
      Sorted
        (pabs h)
        (put h.sizebases (type_of (pabs h r)) (unlink r (h.sizebases (type_of (pabs h r)))))
        (unlink r h.allbase)
  sorted_lem c lt = elim (Bool-cases (type_of (pabs h r) == c)) [
    | inl hit ↦
        let at : c ≡ type_of (pabs h r) = same_ref (type_of (pabs h r)) c hit in
        rw hit (
          ap (unlink r) (ap h.sizebases (sym at) ∙ v.sorted c lt)
          ∙ sym (of_type-unlink (pabs h) r c h.allbase ∙ rw hit))
    | inr miss ↦ rw miss (v.sorted c lt ∙ sym (of_type-unlink (pabs h) r c h.allbase ∙ rw miss))
  ]

  released-Same :
      (inuse : List Word) → Turned h.inuse r false inuse → Same h free (released inuse) free
  unfolding released
  released-Same inuse u = record {
    valid = record {
      ram = v.ram;
      each = λ q e. v.each q (has-unlink r h.allbase q e);
      apart = λ q q' e e'. v.apart q q' (has-unlink r h.allbase q e) (has-unlink r h.allbase q' e');
      sorted = sorted_lem;
      once = Unique-unlink r h.allbase v.once;
      used = λ q e. u.now q ∙ rw (differs q e) (v.used q (has-unlink r h.allbase q e));
      table = u.table;
    };
    kept = λ a s g. relisted g (has-unlink_other r h.allbase g.ref (other a s g) g.listed);
    only = λ a s g. relisted g (has-unlink r h.allbase g.ref g.listed);
    memory = λ a s x g low high. refl;
    pages = (omega arith, λ p n below c q e. c q (has-unlink r h.allbase q e));
  }
    where
      other : (a s : ℕ) (g : Live h free a s) → (r == g.ref) ≡ false
      other a s g = elim (Bool-cases (r == g.ref)) [
        | inr miss ↦ miss
        | inl hit ↦
            let at = same_ref r g.ref hit in
            let lt : g.block < blocks_of (pabs h r) =
              subst (λ q. g.block < blocks_of (pabs h q)) at g.inside in
            let all =
              has_all (blocks_of (pabs h r)) (free r) g.block page_ok.unique page_ok.below full
                lt in
            absurd (clash all (subst (λ q. has g.block (free q) ≡ false) at g.taken))
      ]

  -- `release` leaves the blocks given out as they are.
  pub release-Same :
      (h' : Kheap) × (release h r (type_of (pabs h r)) (page_of (pabs h r)) ≡ ok h')
      × Same h free h' free
  unfolding release remove_lists Ram.free_kpages released
  release-Same =
      let typed : ltb (type_of (pabs h r)) 8 ≡ true = ground (arith, page_ok.typed) in
      let (inuse, ran, u) = freepageref_lem h.inuse r v.table (v.used r listed) in
      (released inuse, rw (typed, ran), released-Same inuse u)
