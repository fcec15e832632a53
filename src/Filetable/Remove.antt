-- ===== src/Filetable/Remove.antt =====
-- kern/userprog/filetable.c: `filetable_remove` and `filetable_destroy`. The first stores a NULL by
-- `filetable_set`, which asserts that what it stores is not NULL.
use cs325os.Base.{
  ℕ, ◌+◌, ◌≡◌, refl, sym, ap, subst, inl, inr, Bool, true, false, Option, none, some, ltb, List, [],
  ◌∷◌, Bool-cases, if◌then◌else◌, Result, ok, panic, arith, length, get_elem?, get_elem?-of_le,
  get_elem?-of_lt, ltb→lt, lt_of_get_elem?,
}
use cs325os.Base.Int.{ℤ, pos, negsuc}
use cs325os.Filetable.Defs.{Pointer, Filetable, size, set, remove, remove_from, destroy}
use cs325os.Filetable.Table.{Handles, num-Handles, get-handle_at}
use cs325os.Filetable.Copy.{Rest, Rest-head}

-- What is left of `filetable_remove`, by the handle at the index: an open one ends in a panic.
abbrev remove_of : Filetable → Option Pointer → Result (ℤ × Filetable × Pointer)
remove_of ft none = panic
remove_of ft (some none) = ok (negsuc 0, ft, none)
remove_of ft (some (some p)) = panic

abbrev pub remove_at : Filetable → List Pointer → ℤ → Result (ℤ × Filetable × Pointer)
remove_at ft ps (pos i) = remove_of ft (get_elem? ps i)
remove_at ft ps (negsuc i) = panic

remove_handle :
    (ft : Filetable) {ps : List Pointer} (i : ℕ) (w : Pointer)
    → Handles ft.handles ps
    → get_elem? ps i ≡ some w
    → remove ft (pos i) ≡ remove_of ft (some w)
unfolding remove size set
remove_handle ft i none h e =
    let lt : ltb i ft.handles.num ≡ true = ground (arith, num-Handles h, lt_of_get_elem? _ i e) in
    rw (lt, get-handle_at ft (pos i) h, e)
remove_handle ft i (some p) h e =
    let lt : ltb i ft.handles.num ≡ true = ground (arith, num-Handles h, lt_of_get_elem? _ i e) in
    rw (lt, get-handle_at ft (pos i) h, e)

-- `filetable_remove` removes nothing: at the index of an open handle, and out of range, the kernel
-- panics; at a NULL the call returns -1.
pub remove-remove_at :
    (ft : Filetable) (ps : List Pointer) (i : ℤ)
    → Handles ft.handles ps
    → remove ft i ≡ remove_at ft ps i
unfolding remove size
remove-remove_at ft ps (negsuc i) h = refl
remove-remove_at ft ps (pos i) h = elim (Bool-cases (ltb i (length ps))) [
  | inl lt ↦
      let (w, e) = get_elem?-of_lt ps i (ltb→lt i (length ps) lt) in
      rw (remove_handle ft i w h e, e)
  | inr ge ↦
      let out : ltb i ft.handles.num ≡ false = ground (arith, num-Handles h) in
      rw (out, get_elem?-of_le ps i (ground arith))
]

-- No handle is open.
abbrev pub all_null : List Pointer → Bool
all_null [] = true
all_null (none ∷ ps) = all_null ps
all_null (some p ∷ ps) = false

remove_from_lem :
    (rs : List Pointer) (i : ℕ) (ft : Filetable) {ps : List Pointer}
    → Handles ft.handles ps
    → Rest ps i rs
    → remove_from (length rs) i ft ≡ (if all_null rs then ok ft else panic)
unfolding remove_from
remove_from_lem [] i ft h rest = refl
remove_from_lem (none ∷ rs) i ft {ps} h rest =
    let (e, rest') = Rest-head ps i none rs rest in
    rw (remove_handle ft i none h e) (remove_from_lem rs (i + 1) ft h rest')
remove_from_lem (some p ∷ rs) i ft {ps} h rest =
    let (e, rest') = Rest-head ps i (some p) rs rest in rw (remove_handle ft i (some p) h e)

-- `filetable_destroy` returns if no handle is open, and otherwise the kernel panics.
pub destroy-all_null :
    (ft : Filetable) (ps : List Pointer)
    → Handles ft.handles ps
    → destroy ft ≡ (if all_null ps then ok tt else panic)
unfolding destroy size
destroy-all_null ft ps h =
    let e =
      subst (λ n. remove_from n 0 ft ≡ (if all_null ps then ok ft else panic)) (sym (num-Handles h))
        (remove_from_lem ps 0 ft h (λ k. ap (get_elem? ps) (omega arith))) in
    elim (Bool-cases (all_null ps)) [ inl yes' ↦ rw (e, yes') | inr no' ↦ rw (e, no') ]
