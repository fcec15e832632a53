-- ===== src/Filetable/Copy.antt =====
-- kern/userprog/filetable.c: `filetable_copy`.
use mathlib.Core.List.{append-nil, append_assoc, map-append}
use cs325os.Base.{
  ℕ, suc, ◌+◌, ◌≤◌, ◌<◌, ◌≡◌, refl, sym, ap, subst, ◌⊎◌, inl, inr, Bool, true, false, Option, none,
  some, ltb, List, [], ◌∷◌, ◌++◌, map, ◌^◌, ok, arith, length, get_elem?, length-map, length-append,
}
use cs325os.Base.Int.{pos}
use cs325os.Array
use cs325os.Array.{Array, in_range, to_index}
use cs325os.Filetable.Defs.{Pointer, Filetable, size, add, copy_from, copy, create}
use cs325os.Filetable.Table.{first_free, Handles, Lists, num-Handles, get-handle_at}
use cs325os.Filetable.Add.{append-Handles}

-- What stands in `rs` from its start stands in `ps` from the place `i`.
abbrev pub Rest : {A : Type 0} → List A → ℕ → List A → Type 0
Rest ps i rs = (k : ℕ) → get_elem? ps (i + k) ≡ get_elem? rs k

pub Rest-head :
    {A : Type 0} (ps : List A) (i : ℕ) (r : A) (rs : List A)
    → Rest ps i (r ∷ rs)
    → (get_elem? ps i ≡ some r) × Rest ps (i + 1) rs
Rest-head ps i r rs h = (
  subst (λ k. get_elem? ps k ≡ some r) (omega arith) (h 0),
  λ k. subst (λ j. get_elem? ps j ≡ get_elem? rs k) (omega arith) (h (suc k)),
)

first_free-map : (qs : List ℕ) → first_free (map some qs) ≡ length qs
first_free-map [] = refl
first_free-map (q ∷ qs) = ap suc (first_free-map qs)

module _ (room : ℕ → Bool) (granted : (n : ℕ) → room n ≡ true) where
  -- A table with no NULL, whose `next` may be past the end, grows at the end.
  add-end :
      (ft : Filetable) (have : List ℕ) (p : ℕ)
      → Handles ft.handles (map some have)
      → length have ≤ ft.next
      → length have + 1 < 2 ^ 29
      → (ft' : Filetable) × (add room ft (some p) ≡ ok (pos ft.next, ft'))
        × Handles ft'.handles (map some (have ++ (p ∷ [])))
        × (ft'.next ≡ length have + 1)
  unfolding add size Array.getnum
  add-end ft have p h le small =
      let n = num-Handles h in
      let end : ltb ft.next ft.handles.num ≡ false =
        ground (arith, n, length-map {B = Option ℕ} some have) in
      elim (append-Handles room p h (omega (arith, length-map {B = Option ℕ} some have))) [
        | inl (a, e, h') ↦
            let h2 : Handles a (map some (have ++ (p ∷ []))) =
              rw (map-append some have (p ∷ [])) h' in
            (
              record { handles = a; next = a.num },
              rw (end, e),
              h2,
              omega (
                arith,
                num-Handles h2,
                length-map {B = Option ℕ} some (have ++ (p ∷ [])),
                length-append have (p ∷ []),
              ),
            )
        | inr (m, out, e) ↦ let g = granted m in cc
      ]

  copy_from_lem :
      (rs : List ℕ) (i : ℕ) (ft new : Filetable) {ps : List Pointer} (have : List ℕ)
      → Handles ft.handles ps
      → Rest ps i (map some rs)
      → Handles new.handles (map some have)
      → length have ≤ new.next
      → length have + length rs < 2 ^ 29
      → (ft' : Filetable) × (copy_from (length rs) i room ft new ≡ ok ft')
        × Handles ft'.handles (map some (have ++ rs))
        × ((0 < length rs) × (ft'.next ≡ length have + length rs)
            ⊎ (rs ≡ []) × (ft'.next ≡ new.next))
  unfolding copy_from
  copy_from_lem [] i ft new have h rest hn le small =
      (new, refl, rw append-nil hn, inr (refl, refl))
  copy_from_lem (r ∷ rs) i ft new {ps} have h rest hn le small =
      let (e0, rest') = Rest-head ps i (some r) (map some rs) rest in
      let (n1, e1, h1, l1) = add-end new have r hn le (omega arith) in
      let (n2, e2, h2, l2) =
        copy_from_lem rs (i + 1) ft n1 (have ++ (r ∷ [])) h rest' h1
          (omega (arith, length-append have (r ∷ [])))
          (omega (arith, length-append have (r ∷ []))) in
      (
        n2,
        rw (get-handle_at ft (pos i) h, e0, e1) e2,
        subst (λ l. Handles n2.handles (map some l)) (append_assoc have (r ∷ []) rs) h2,
        inl (
          omega arith,
          elim l2 [
            | inl (some_left, e) ↦ omega (arith, e, length-append have (r ∷ []))
            | inr (none_left, e) ↦ omega (arith, e, l1, ap length none_left)
          ],
        ),
      )

  create_granted :
      create room ≡ some (record { handles = record { num = 0; max = 0; v = none }; next = 0 })
  unfolding create Array.create
  create_granted = rw (granted 8, granted 12)

  copy-eq :
      (ft ft' : Filetable)
      → copy_from ft.handles.num 0 room ft
          (record { handles = record { num = 0; max = 0; v = none }; next = ft.next })
        ≡ ok ft'
      → copy room ft ≡ ok (some ft')
  unfolding copy size Array.getnum
  copy-eq ft ft' e = rw (create_granted, copy) (rw e)

  -- If `kmalloc` never refuses, `filetable_copy` of a table of fewer than 2 ^ 29 handles and no NULL
  -- makes a table of the same handles, in the
  -- same places, whose `next` is again the lowest free place.
  pub copy-Lists :
      (ft : Filetable) (qs : List ℕ)
      → Lists ft (map some qs)
      → length qs < 2 ^ 29
      → (ft' : Filetable) × (copy room ft ≡ ok (some ft')) × Lists ft' (map some qs)
  copy-Lists ft qs l small =
      let num = num-Handles l.handles in
      let len = length-map {B = Option ℕ} some qs in
      let first = first_free-map qs in
      let new : Filetable = record {
        handles = record { num = 0; max = 0; v = none };
        next = ft.next;
      } in
      let h0 : Handles new.handles [] = record { valid = omega arith; items_eq = refl } in
      let (ft', e, h, nx) =
        copy_from_lem qs 0 ft new [] l.handles (λ k. ap (get_elem? (map some qs)) (omega arith)) h0
          (omega arith) (omega arith) in
      let same : ft.handles.num ≡ length qs = omega (arith, num, len) in
      let e' = subst (λ n. copy_from n 0 room ft new ≡ ok ft') (sym same) e in
      (
        ft',
        copy-eq ft ft' e',
        record {
          handles = h;
          lowest = elim nx [
            | inl (p, eq) ↦ omega (arith, eq, first)
            | inr (nil, eq) ↦ omega (arith, eq, l.lowest)
          ];
        },
      )
