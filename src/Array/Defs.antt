-- ===== src/Array/Defs.antt =====
-- The functions of array.c. One that changes `*a` returns the new array beside its result.
-- An `int` that is a size is a number; one that is an index may be negative.
use cs325os.Base.{
  ℕ, zero, suc, ◌+◌, ◌-◌, ◌*◌, ◌/◌, Bool, false, ◌&&◌, Option, none, some, ltb, leb, ◌==◌,
  if◌then◌else◌, Result, ok, fault, no_fuel, ◌>>=◌, ◌>>◌, assert, Block, load_word, load, store,
  deref, replicate, enomem, bytes_of, int_limit,
}
use cs325os.Base.Int.{ℤ, pos, negsuc}

-- `struct array`; a null `v` is `none`.
pub record Array {ℓ} (A : Type ℓ) : Type ℓ where
  pub num : ℕ
  pub max : ℕ
  pub v : Option (Block A)

-- `index >= 0 && index < limit`
abbrev pub in_range : ℤ → ℕ → Bool
in_range (pos i) limit = ltb i limit
in_range (negsuc i) limit = false

-- A number in place of an index that the tests have passed.
abbrev pub to_index : ℤ → ℕ
to_index (pos i) = i
to_index (negsuc i) = 0

-- `while (nguys > newmax) newmax = (newmax+1)*2;`
unfoldable pub grow_max : ℕ → ℕ → ℕ → Result ℕ
grow_max zero nguys newmax = no_fuel
grow_max (suc f) nguys newmax =
    let rest = grow_max f nguys ((newmax + 1) * 2) in
    if ltb newmax nguys then if ltb ((newmax + 1) * 2) int_limit then rest else fault else ok newmax

-- No `int` takes 32 doublings.
abbrev pub max_fuel : ℕ
max_fuel = 32

module _ {ℓ} {A : Type ℓ} where
  -- `array_create`; the fresh array, or NULL.
  unfoldable pub create : (ℕ → Bool) → Option (Array A)
  create room = if room 12 then some (record { num = 0; max = 0; v = none }) else none

  unfoldable pub getnum : Array A → ℕ
  getnum a = a.num

  unfoldable pub getguy : Array A → ℤ → Result A
  getguy a index = do
    assert (leb a.num a.max)
    assert (in_range index a.num)
    v ← deref a.v
    load v (to_index index)

  -- `for (i=0; i<num; i++) newv[i] = v[i];` with `n` rounds left.
  unfoldable pub copy_words : ℕ → ℕ → Option (Block A) → Block A → Result (Block A)
  copy_words zero i v newv = ok newv
  copy_words (suc n) i v newv = do
    old ← deref v
    w ← load_word old i
    newv' ← store newv i w
    copy_words n (i + 1) v newv'

  unfoldable pub preallocate : (ℕ → Bool) → Array A → ℕ → Result (ℕ × Array A)
  preallocate room a nguys = do
    assert (leb a.num a.max)
    newmax ← grow_max max_fuel nguys a.max
    if room (bytes_of newmax)
        then (copy_words a.num 0 a.v (replicate (bytes_of newmax / 4) none) >>= λ newv.
            ok (0, record { num = a.num; max = newmax; v = some newv }))
        else ok (enomem, a)

  -- The part of `array_setsize` that makes or gives up room.
  unfoldable pub resize : (ℕ → Bool) → Array A → ℕ → Result (ℕ × Array A)
  resize room a nguys =
      if ltb a.max nguys
      then preallocate room a nguys
      else if (nguys == 0) && ltb 16 a.max
      then (deref a.v >>= λ _. ok (0, record a { max = 0; v = none }))
      else ok (0, a)

  unfoldable pub setsize : (ℕ → Bool) → Array A → ℕ → Result (ℕ × Array A)
  setsize room a nguys = do
    assert (leb a.num a.max)
    (result, a') ← resize room a nguys
    ok (if result == 0 then (0, record a' { num = nguys }) else (result, a'))

  unfoldable pub setguy : Array A → ℤ → A → Result (Array A)
  setguy a index ptr = do
    assert (leb a.num a.max)
    assert (in_range index a.num)
    v ← deref a.v
    v' ← store v (to_index index) (some ptr)
    ok (record a { v = some v' })

  unfoldable pub add : (ℕ → Bool) → Array A → A → Result (ℕ × Array A)
  add room a guy = do
    (result, a') ← setsize room a (a.num + 1)
    if result == 0
        then (deref a'.v >>= λ v.
            store v a.num (some guy) >>= λ v'. ok (0, record a' { v = some v' }))
        else ok (result, a')

  -- `memmove(v+i, v+i+1, n*sizeof(void *))`: words go down one place, the lowest first.
  unfoldable pub move_down : ℕ → ℕ → Block A → Result (Block A)
  move_down zero i v = ok v
  move_down (suc n) i v = do w ← load_word v (i + 1); v' ← store v i w; move_down n (i + 1) v'

  unfoldable pub remove : Array A → ℤ → Result (Array A)
  remove a index = do
    assert (leb a.num a.max)
    assert (in_range index a.num)
    v ← deref a.v
    v' ← move_down (a.num - (to_index index + 1)) (to_index index) v
    ok (record a { num = a.num - 1; v = some v' })
