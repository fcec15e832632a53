-- ===== src/Filetable/Table.antt =====
-- kern/userprog/filetable.c: the list of handles that a table stands for.
use cs325os.Base.{
  ℕ, suc, ◌≡◌, sym, ap, ◌∙◌, inl, inr, true, false, Option, none, some, ltb, leb, List, [], ◌∷◌,
  map, Bool-cases, Result, ok, panic, arith, length, get_elem?, length-map, get_elem?-map,
  get_elem?-of_le, get_elem?-of_lt, ltb→lt,
}
use cs325os.Base.Int.{ℤ, pos, negsuc}
use cs325os.Array.{Array}
use cs325os.Array.Items.{items, IsValid, length-items}
use cs325os.Array.Access.{getguy-item_at}
use cs325os.Filetable.Defs.{Pointer, Filetable, size, get}

-- The place of the first NULL, or the length.
abbrev pub first_free : List Pointer → ℕ
first_free [] = 0
first_free (none ∷ ps) = 0
first_free (some p ∷ ps) = suc (first_free ps)

-- `handles` holds `ps`, each item set.
pub record Handles (a : Array Pointer) (ps : List Pointer) : Type 0 where
  pub valid : IsValid a
  pub items_eq : items a ≡ map some ps

-- A table of the handles `ps`, whose `next` is the lowest free place.
pub record Lists (ft : Filetable) (ps : List Pointer) : Type 0 where
  pub handles : Handles ft.handles ps
  pub lowest : ft.next ≡ first_free ps

pub num-Handles : {a : Array Pointer} {ps : List Pointer} → Handles a ps → a.num ≡ length ps
num-Handles {a} {ps} h = sym (length-items h.valid) ∙ ap length h.items_eq ∙ length-map some ps

abbrev handle_of : Option Pointer → Result Pointer
handle_of none = ok none
handle_of (some p) = ok p

-- What a lookup finds: NULL from the length on, and no return at a negative index.
abbrev pub handle_at : List Pointer → ℤ → Result Pointer
handle_at ps (negsuc i) = panic
handle_at ps (pos i) = handle_of (get_elem? ps i)

-- `filetable_get` returns the handle at an index, NULL past the end, and at a negative index the
-- kernel panics.
pub get-handle_at :
    (ft : Filetable) {ps : List Pointer} (i : ℤ) → Handles ft.handles ps → get ft i ≡ handle_at ps i
unfolding get size
get-handle_at ft {ps} (negsuc i) h = getguy-item_at (negsuc i) h.valid
get-handle_at ft {ps} (pos i) h = elim (Bool-cases (ltb i (length ps))) [
  | inl lt ↦
      let (p, e) = get_elem?-of_lt ps i (ltb→lt i (length ps) lt) in
      let s : leb ft.handles.num i ≡ false = ground (arith, num-Handles h) in
      rw (s, getguy-item_at (pos i) h.valid, h.items_eq, get_elem?-map some ps i e, e)
  | inr ge ↦
      let s : leb ft.handles.num i ≡ true = ground (arith, num-Handles h) in
      rw (s, get_elem?-of_le ps i (ground arith))
]
