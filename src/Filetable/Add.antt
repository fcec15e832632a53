-- ===== src/Filetable/Add.antt =====
-- kern/userprog/filetable.c: `filetable_add` uses the lowest free place; `filetable_copy`.
use mathlib.Core.List.{map-append}
use cs325os.Base.{
  ℕ, zero, suc, ◌+◌, ◌≤◌, ◌<◌, ◌≡◌, refl, sym, ap, subst, ◌∙◌, ◌⊎◌, inl, inr, Bool, true, false,
  none, some, ltb, List, [], ◌∷◌, ◌++◌, ◌^◌, Bool-cases, ok, arith, length, get_elem?, ltb→lt,
  set-map, enomem,
}
use cs325os.Base.{set as list_set}
use cs325os.Base.Int.{pos, negsuc}
use cs325os.Array
use cs325os.Array.{Array, in_range, setguy}
use cs325os.Array.Room.{add-items}
use cs325os.Array.Access.{setguy-items}
use cs325os.Filetable.Defs.{Pointer, Filetable, size, set, scan, add}
use cs325os.Filetable.Table.{first_free, Handles, Lists, num-Handles, get-handle_at}

-- The handles after a pointer went to the lowest free place.
abbrev pub fill : List Pointer → ℕ → List Pointer
fill [] p = some p ∷ []
fill (none ∷ ps) p = some p ∷ ps
fill (some q ∷ ps) p = some q ∷ fill ps p

first_free-le : (ps : List Pointer) → first_free ps ≤ length ps
first_free-le [] = omega arith
first_free-le (none ∷ ps) = omega arith
first_free-le (some p ∷ ps) = omega (arith, first_free-le ps)

fill-eq-set :
    (ps : List Pointer) (p : ℕ)
    → first_free ps < length ps
    → fill ps p ≡ list_set ps (first_free ps) (some p)
fill-eq-set [] p h = absurd (omega arith)
fill-eq-set (none ∷ ps) p h = refl
fill-eq-set (some q ∷ ps) p h = ap (◌∷◌ (some q)) (fill-eq-set ps p (omega arith))

fill-eq-snoc :
    (ps : List Pointer) (p : ℕ) → length ps ≤ first_free ps → fill ps p ≡ ps ++ (some p ∷ [])
fill-eq-snoc [] p h = refl
fill-eq-snoc (none ∷ ps) p h = absurd (omega arith)
fill-eq-snoc (some q ∷ ps) p h = ap (◌∷◌ (some q)) (fill-eq-snoc ps p (omega arith))

first_free-fill : (ps : List Pointer) (p : ℕ) → first_free ps < first_free (fill ps p)
first_free-fill [] p = omega arith
first_free-fill (none ∷ ps) p = omega arith
first_free-fill (some q ∷ ps) p = omega (arith, first_free-fill ps p)

-- Below the first NULL there is none, and it is one.
first_free-below :
    (ps : List Pointer) (i : ℕ) → i < first_free ps → (p : ℕ) × (get_elem? ps i ≡ some (some p))
first_free-below [] i h = absurd (omega arith)
first_free-below (none ∷ ps) i h = absurd (omega arith)
first_free-below (some p ∷ ps) zero h = (p, refl)
first_free-below (some p ∷ ps) (suc i) h = first_free-below ps i (omega arith)

first_free-here :
    (ps : List Pointer) → first_free ps < length ps → get_elem? ps (first_free ps) ≡ some none
first_free-here [] h = absurd (omega arith)
first_free-here (none ∷ ps) h = refl
first_free-here (some p ∷ ps) h = first_free-here ps (omega arith)

-- The loop of `filetable_add` stops at the first NULL.
scan_lem :
    (f i : ℕ) (ft : Filetable) {ps : List Pointer}
    → Handles ft.handles ps
    → i ≤ first_free ps
    → first_free ps < i + f
    → scan f i (length ps) ft ≡ ok (first_free ps)
unfolding scan
scan_lem zero i ft h le fuel = absurd (omega arith)
scan_lem (suc f) i ft {ps} h le fuel = elim (Bool-cases (ltb i (first_free ps))) [
  | inl below ↦
      let (p, e) = first_free-below ps i (ltb→lt i (first_free ps) below) in
      let lt : ltb i (length ps) ≡ true = ground (arith, first_free-le ps) in
      rw (lt, get-handle_at ft (pos i) h, e) (scan_lem f (i + 1) ft h (ground arith) (omega arith))
  | inr here ↦
      let e : i ≡ first_free ps = ground arith in
      elim (Bool-cases (ltb i (length ps))) [
        | inl lt ↦
            let w : get_elem? ps i ≡ some none =
              rw e (first_free-here ps (rw e at (ltb→lt i (length ps) lt))) in
            rw (lt, get-handle_at ft (pos i) h, w) (ap ok e)
        | inr ge ↦ rw ge (ap ok e)
      ]
]

-- `filetable_set` with a pointer that is not NULL replaces the handle at an index in range.
pub set_lem :
    (ft : Filetable) {ps : List Pointer} (i p : ℕ)
    → Handles ft.handles ps
    → i < length ps
    → (ft' : Filetable) × (set ft (pos i) (some p) ≡ ok ft')
      × Handles ft'.handles (list_set ps i (some p))
      × (ft'.next ≡ ft.next)
unfolding set size
set_lem ft {ps} i p h lt =
    let (a, e, v, it) =
      setguy-items {a = ft.handles} i (some p) h.valid (omega (arith, num-Handles h)) in
    let inside : ltb i ft.handles.num ≡ true = ground (arith, num-Handles h) in
    (
      record { handles = a; next = ft.next },
      rw (inside, e),
      record { valid = v; items_eq = it ∙ (rw (h.items_eq) (set-map some ps i (some p))) },
      refl,
    )

-- The handles of a table grow by one at the end, or memory is short.
pub append-Handles :
    (room : ℕ → Bool) {a : Array Pointer} {ps : List Pointer} (p : ℕ)
    → Handles a ps
    → length ps + 1 < 2 ^ 29
    → ((a' : Array Pointer) × (Array.add room a (some p) ≡ ok (0, a'))
        × Handles a' (ps ++ (some p ∷ [])))
      ⊎ ((n : ℕ) × (room n ≡ false) × (Array.add room a (some p) ≡ ok (enomem, a)))
append-Handles room {a} {ps} p h small =
    elim (add-items room (some p) h.valid (omega (arith, num-Handles h))) [
      | inl (a', e, v, it) ↦ inl (
        a',
        e,
        record {
          valid = v;
          items_eq = it ∙ rw (h.items_eq) (sym (map-append some ps (some p ∷ [])));
        },
      )
      | inr refused ↦ inr refused
    ]

length-fill : (ps : List Pointer) (p : ℕ) → length (fill ps p) ≤ length ps + 1
length-fill [] p = omega arith
length-fill (none ∷ ps) p = omega arith
length-fill (some q ∷ ps) p = omega (arith, length-fill ps p)

scan_all :
    (i : ℕ) (ft : Filetable) {ps : List Pointer}
    → Handles ft.handles ps
    → i ≤ first_free ps
    → scan (suc ft.handles.num) i ft.handles.num ft ≡ ok (first_free ps)
scan_all i ft {ps} h le =
    subst (λ n. scan (suc n) i n ft ≡ ok (first_free ps)) (sym (num-Handles h))
      (scan_lem (suc (length ps)) i ft h le (omega (arith, first_free-le ps)))

-- The branch of `filetable_add` for a `next` below the size.
add_hole :
    (room : ℕ → Bool) (ft ft' : Filetable) (ps : List Pointer) (p : ℕ)
    → ltb ft.next ft.handles.num ≡ true
    → set ft (pos ft.next) (some p) ≡ ok ft'
    → Handles ft'.handles (fill ps p)
    → ft'.next ≡ first_free ps
    → add room ft (some p) ≡ ok (pos (first_free ps), record ft' { next = first_free (fill ps p) })
unfolding add size
add_hole room ft ft' ps p hole e h same =
    let s = scan_all ft'.next ft' h (omega (arith, first_free-fill ps p)) in
    rw (hole, e, s) (ap (λ k. ok (pos k, record ft' { next = first_free (fill ps p) })) same)

-- For a table of fewer than 2 ^ 29 - 1 handles, `filetable_add` puts the handle at the lowest free
-- place and returns that place, or returns -1 and changes nothing if memory is short; `next` stays
-- the lowest free place.
pub add-Lists :
    (room : ℕ → Bool) (ft : Filetable) {ps : List Pointer} (p : ℕ)
    → Lists ft ps
    → length ps + 1 < 2 ^ 29
    → ((ft' : Filetable) × (add room ft (some p) ≡ ok (pos (first_free ps), ft'))
        × Lists ft' (fill ps p))
      ⊎ ((n : ℕ) × (room n ≡ false) × (add room ft (some p) ≡ ok (negsuc 0, ft)))
unfolding add size
add-Lists room ft {ps} p l small =
    let h = l.handles in
    let num = num-Handles h in
    elim (Bool-cases (ltb ft.next ft.handles.num)) [
      | inl hole ↦
          let lt : first_free ps < length ps =
            omega (arith, l.lowest, ltb→lt ft.next ft.handles.num hole) in
          let (ft', e, h', same) = set_lem ft ft.next p h (omega (arith, l.lowest)) in
          let hf : Handles ft'.handles (fill ps p) =
            rw (fill-eq-set ps p lt)
              (subst (λ k. Handles ft'.handles (list_set ps k (some p))) l.lowest h') in
          inl (
            _,
            add_hole room ft ft' ps p hole e hf (same ∙ l.lowest),
            record { handles = hf; lowest = refl },
          )
      | inr end ↦ elim (append-Handles room p h small) [
        | inl (a, e, h') ↦
            let le : length ps ≤ first_free ps = ground (arith, l.lowest) in
            let hf : Handles a (fill ps p) = rw (fill-eq-snoc ps p le) h' in
            inl (
              record { handles = a; next = a.num },
              rw (end, e, l.lowest),
              record {
                handles = hf;
                lowest = omega (
                  arith,
                  num-Handles hf,
                  first_free-fill ps p,
                  first_free-le (fill ps p),
                  length-fill ps p,
                  first_free-le ps,
                );
              },
            )
        | inr (n, out, e) ↦ inr (n, out, rw (end, e))
      ]
    ]
