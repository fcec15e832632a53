-- ===== src/Filetable/Defs.antt =====
-- The functions of filetable.c. A `filedesc *` is `none` for NULL, and otherwise a number that
-- names the object. The fields of the objects are of no concern here.
use cs325os.Base.{
  ℕ, zero, suc, ◌+◌, ◌&&◌, not, Bool, true, false, Option, none, some, ltb, leb, ◌==◌,
  if◌then◌else◌, Result, ok, no_fuel, ◌>>=◌, ◌>>◌, assert,
}
use cs325os.Base.Int.{ℤ, pos, negsuc}
use cs325os.Array
use cs325os.Array.{Array, in_range, to_index}

abbrev pub Pointer : Type 0
Pointer = Option ℕ

abbrev pub is_set : Pointer → Bool
is_set none = false
is_set (some p) = true

-- `filetable`
pub record Filetable : Type 0 where
  pub handles : Array Pointer
  pub next : ℕ

unfoldable pub create : (ℕ → Bool) → Option Filetable
create room =
    if room 8
    then elim (Array.create {A = Pointer} room) [
      | none ↦ none
      | some handles ↦ some (record { handles = handles; next = 0 })
    ]
    else none

unfoldable pub size : Filetable → ℕ
unfolding Array.getnum
size ft = Array.getnum ft.handles

-- `i >= filetable_size(ft)`
abbrev pub ge_size : ℤ → ℕ → Bool
ge_size (pos i) n = leb n i
ge_size (negsuc i) n = false

unfoldable pub get : Filetable → ℤ → Result Pointer
unfolding size
get ft i = if ge_size i (size ft) then ok none else Array.getguy ft.handles i

unfoldable pub set : Filetable → ℤ → Pointer → Result Filetable
unfolding size
set ft i val = do
  assert (is_set val)
  assert (in_range i (size ft))
  let next = if not (is_set val) && ltb (to_index i) ft.next then to_index i else ft.next
  handles ← Array.setguy ft.handles i val
  ok (record { handles = handles; next = next })

-- `for (i = next; i < size && filetable_get(ft, i); i++);`
unfoldable pub scan : ℕ → ℕ → ℕ → Filetable → Result ℕ
scan zero i n ft = no_fuel
scan (suc f) i n ft =
    if ltb i n
    then (get ft (pos i) >>= λ p. elim p [ none ↦ ok i | some _ ↦ scan f (i + 1) n ft ])
    else ok i

-- `filetable_add`; -1 if memory is short.
unfoldable pub add : (ℕ → Bool) → Filetable → Pointer → Result (ℤ × Filetable)
unfolding size
add room ft val = do
  assert (is_set val)
  if ltb ft.next (size ft)
      then (set ft (pos ft.next) val >>= λ ft'.
          scan (suc (size ft')) ft'.next (size ft') ft' >>= λ next.
          ok (pos ft'.next, record ft' { next = next }))
      else (Array.add room ft.handles val >>= λ (result, handles).
          if result == 0
          then ok (pos ft.next, record { handles = handles; next = Array.getnum handles })
          else ok (negsuc 0, record ft { handles = handles }))

-- `for(i = 0; i < size; i++) filetable_add(copy, filetable_get(ft, i));` with `n` rounds left.
unfoldable pub copy_from : ℕ → ℕ → (ℕ → Bool) → Filetable → Filetable → Result Filetable
copy_from zero i room ft copy = ok copy
copy_from (suc n) i room ft copy = do
  p ← get ft (pos i)
  (_, copy') ← add room copy p
  copy_from n (i + 1) room ft copy'

-- `filetable_copy`; NULL if memory for the table is short.
unfoldable pub copy : (ℕ → Bool) → Filetable → Result (Option Filetable)
unfolding size
copy room ft = elim (create room) [
  | none ↦ ok none
  | some new ↦
      copy_from (size ft) 0 room ft (record new { next = ft.next }) >>= λ copy'. ok (some copy')
]

-- `filetable_remove`: its value, the new table, and the object that it closed and freed.
unfoldable pub remove : Filetable → ℤ → Result (ℤ × Filetable × Pointer)
unfolding size
remove ft i = do
  assert (in_range i (size ft))
  fd ← get ft i
  elim fd [
    | none ↦ ok (negsuc 0, ft, none)
    | some p ↦ set ft i none >>= λ ft'.
        if to_index i + 1 == size ft'
        then (Array.remove ft'.handles i >>= λ handles.
            ok (pos 1, record ft' { handles = handles }, some p))
        else ok (pos 0, ft', some p)
  ]

-- `for(i = 0; i < size; i++) filetable_remove(ft, i);` with `n` rounds left.
unfoldable pub remove_from : ℕ → ℕ → Filetable → Result Filetable
remove_from zero i ft = ok ft
remove_from (suc n) i ft = do (_, ft', _) ← remove ft (pos i); remove_from n (i + 1) ft'

-- What `filetable_destroy` does before it frees the table.
unfoldable pub destroy : Filetable → Result (Unit {0})
unfolding size
destroy ft = remove_from (size ft) 0 ft >>= λ _. ok tt
