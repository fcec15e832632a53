-- ===== src/Array/Access.antt =====
-- kern/lib/array.c: the functions that read, write and remove one item.
use cs325os.Base.{
  Block, Bool-cases, Option, none, Result, fault, inl, inr, deref, load, set_word, refl,
  get_elem?-of_lt, ◌>>=◌, ℕ, suc, ◌+◌, ◌-◌, ◌<◌, ◌≡◌, true, some, ltb, leb, ok, panic, ltb→lt,
  arith, take, erase_at, length, get_elem?, set, length-set, get_elem?-set, get_elem?-take,
  get_elem?-erase_at, list_ext, length-take,
}
use cs325os.Base.Int.{ℤ, pos, negsuc}
use cs325os.Array.Defs.{Array, getguy, setguy, remove}
use cs325os.Array.Grow.{move_down_lem}
use cs325os.Array.Items.{block, items, IsValid, block-some}

module _ {A : Type 0} where
  abbrev item_of : Option (Option A) → Result A
  item_of none = panic
  item_of (some none) = fault
  item_of (some (some x)) = ok x

  -- The item at an index of a list; there is none at a negative index.
  abbrev pub item_at : Block A → ℤ → Result A
  item_at b (pos i) = item_of (get_elem? b i)
  item_at b (negsuc i) = panic

  set_word_lem : (w : Option A) → set_word w ≡ item_of (some w)
  set_word_lem none = refl
  set_word_lem (some x) = refl

  load_lem :
      (v : Option (Block A)) (i : ℕ)
      → i < length (block v)
      → (deref v >>= λ b. load b i) ≡ item_of (get_elem? (block v) i)
  load_lem none i h = absurd (omega arith)
  load_lem (some b) i h = let (w, e) = get_elem?-of_lt b i h in rw e (set_word_lem w)

  -- `array_getguy` returns the item at the index; the kernel panics if there is none, and faults if
  -- the item was never set.
  pub getguy-item_at :
      {a : Array A} (index : ℤ) → IsValid a → getguy a index ≡ item_at (items a) index
  unfolding getguy
  getguy-item_at {a} (negsuc i) v = let e : leb a.num a.max ≡ true = ground arith in rw e
  getguy-item_at {a} (pos i) v =
      let e : leb a.num a.max ≡ true = ground arith in
      elim (Bool-cases (ltb i a.num)) [
        | inl lt ↦
            rw (e, lt, get_elem?-take a.num (block a.v) i, lt)
              (load_lem a.v i (omega (arith, ltb→lt i a.num lt)))
        | inr ge ↦ rw (e, ge, get_elem?-take a.num (block a.v) i, ge)
      ]

  -- `array_setguy` replaces the item at an index in range.
  pub setguy-items :
      {a : Array A} (i : ℕ) (x : A)
      → IsValid a
      → i < a.num
      → (a' : Array A) × (setguy a (pos i) x ≡ ok a')
        × IsValid a'
        × (items a' ≡ set (items a) i (some x))
  unfolding setguy
  setguy-items {a} i x v h =
      let b = block a.v in
      let e1 : leb a.num a.max ≡ true = ground arith in
      let e2 : ltb i a.num ≡ true = ground arith in
      let e3 : ltb i (length b) ≡ true = ground arith in
      let eb = block-some a.v (omega arith) in
      (
        record a { v = some (set b i (some x)) },
        rw (e1, e2, eb, e3),
        omega (arith, length-set b i (some x)),
        list_ext (take a.num (set b i (some x))) (set (take a.num b) i (some x)) λ j. ground (
          arith,
          get_elem?-take a.num (set b i (some x)) j,
          get_elem?-set b i j (some x) (omega arith),
          get_elem?-take a.num b j,
          length-take a.num b (omega arith),
          get_elem?-set (take a.num b) i j (some x),
        ),
      )

  -- `array_remove` closes the gap at an index in range.
  pub remove-erase_at :
      {a : Array A} (i : ℕ)
      → IsValid a
      → i < a.num
      → (a' : Array A) × (remove a (pos i) ≡ ok a') × IsValid a' × (items a' ≡ erase_at i (items a))
  unfolding remove
  remove-erase_at {a} i v h =
      let b = block a.v in
      let e1 : leb a.num a.max ≡ true = ground arith in
      let e2 : ltb i a.num ≡ true = ground arith in
      let eb = block-some a.v (omega arith) in
      let (w, ew, lw, gw) = move_down_lem (a.num - (i + 1)) i b (omega arith) in
      (
        record a { num = a.num - 1; v = some w },
        rw (e1, e2, eb, ew),
        omega (arith, lw),
        list_ext (take (a.num - 1) w) (erase_at i (take a.num b)) λ j. ground (
          arith,
          get_elem?-take (a.num - 1) w j,
          gw j,
          get_elem?-erase_at i (take a.num b) j,
          get_elem?-take a.num b j,
          get_elem?-take a.num b (suc j),
        ),
      )
