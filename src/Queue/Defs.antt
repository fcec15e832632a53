-- ===== src/Queue/Defs.antt =====
-- The functions of queue.c. One that changes `*q` returns the new queue beside its result.
use cs325os.Base.{
  ℕ, zero, suc, ◌+◌, ◌*◌, ◌%◌, ◌/◌, Bool, not, ◌&&◌, Option, none, some, ltb, ◌==◌, if◌then◌else◌,
  Result, ok, panic, fault, no_fuel, ◌>>=◌, ◌>>◌, assert, Block, load, store, replicate, enomem,
  bytes_of, int_limit,
}

-- `struct queue`; `words` is its `data`.
pub record Queue {ℓ} (A : Type ℓ) : Type ℓ where
  pub size : ℕ
  pub nextwrite : ℕ
  pub nextread : ℕ
  pub words : Block A

-- `while (nsize < targetsize) { nsize *= 2; assert(nsize > 0); }`. An `int` wraps here: twice a
-- size is positive if it is not 0 and stays below the limit.
unfoldable pub grow_size : ℕ → ℕ → ℕ → Result ℕ
grow_size zero nsize targetsize = no_fuel
grow_size (suc f) nsize targetsize =
    let rest = grow_size f (nsize * 2) targetsize in
    if ltb nsize targetsize
    then if ltb 0 nsize && ltb (nsize * 2) int_limit then rest else panic
    else ok nsize

-- No `int` takes 32 doublings.
abbrev pub size_fuel : ℕ
size_fuel = 32

module _ {ℓ} {A : Type ℓ} where
  unfoldable pub create : (ℕ → Bool) → ℕ → Option (Queue A)
  create room size =
      if room 16 && room (bytes_of size)
      then some (record {
        size = size;
        nextwrite = 0;
        nextread = 0;
        words = replicate (bytes_of size / 4) none;
      })
      else none

  unfoldable pub is_empty : Queue A → Bool
  is_empty q = q.nextwrite == q.nextread

  -- `for (i=onr; i!=onw; i = (i+1)%osize) { result = q_addtail(q, olddata[i]); … }`
  unfoldable pub refill :
      (Queue A → A → Result (ℕ × Queue A)) → ℕ → ℕ → ℕ → ℕ → Block A → Queue A → Result (Queue A)
  refill addtail zero i onw osize olddata q = no_fuel
  refill addtail (suc f) i onw osize olddata q =
      if i == onw
      then ok q
      else load olddata i >>= λ x. addtail q x >>= λ (result, q').
          assert (result == 0) >> refill addtail f ((i + 1) % osize) onw osize olddata q'

  -- `q_grow`, given the `q_addtail` that it calls. The ring never holds as many items as its size,
  -- so the size is fuel enough.
  unfoldable pub grow :
      (Queue A → A → Result (ℕ × Queue A)) → (ℕ → Bool) → Queue A → ℕ → Result (ℕ × Queue A)
  grow addtail room q targetsize = do
    nsize ← grow_size size_fuel q.size targetsize
    if room (bytes_of nsize)
        then (refill addtail q.size q.nextread q.nextwrite q.size q.words (record {
          size = nsize;
          nextwrite = 0;
          nextread = 0;
          words = replicate (bytes_of nsize / 4) none;
        })
            >>= λ q'. ok (0, q'))
        else ok (enomem, q)

  -- The end of `q_addtail`.
  unfoldable pub put : Queue A → A → Result (ℕ × Queue A)
  put q ptr = do
    words ← store q.words q.nextwrite (some ptr)
    ok (0, record q { nextwrite = (q.nextwrite + 1) % q.size; words = words })

  -- `q_addtail` and `q_grow` call each other; the first argument bounds how deep.
  unfoldable pub addtail_within : ℕ → (ℕ → Bool) → Queue A → A → Result (ℕ × Queue A)
  addtail_within zero room q ptr = no_fuel
  addtail_within (suc depth) room q ptr = do
    assert (ltb 0 q.size)
    if (q.nextwrite + 1) % q.size == q.nextread
        then (if ltb (q.size + 1) int_limit
            then (grow (addtail_within depth room) room q (q.size + 1) >>= λ (result, q').
                if result == 0 then put q' ptr else ok (result, q'))
            else fault)
        else put q ptr

  -- A call of `q_addtail` from a `q_grow` never grows the queue again.
  unfoldable pub addtail : (ℕ → Bool) → Queue A → A → Result (ℕ × Queue A)
  unfolding addtail_within
  addtail = addtail_within 2

  unfoldable pub preallocate : (ℕ → Bool) → Queue A → ℕ → Result (ℕ × Queue A)
  preallocate room q size = do
    assert (ltb 0 q.size)
    if ltb q.size size then grow (addtail room) room q size else ok (0, q)

  unfoldable pub remhead : Queue A → Result (A × Queue A)
  remhead q = do
    assert (ltb 0 q.size)
    assert (not (q.nextwrite == q.nextread))
    ret ← load q.words q.nextread
    ok (ret, record q { nextread = (q.nextread + 1) % q.size })

  -- What `q_destroy` requires.
  unfoldable pub destroy : Queue A → Result (Unit {0})
  destroy q = assert (q.nextwrite == q.nextread)

  unfoldable pub getstart : Queue A → ℕ
  getstart q = q.nextread

  unfoldable pub getend : Queue A → ℕ
  getend q = q.nextwrite

  unfoldable pub getsize : Queue A → ℕ
  getsize q = q.size

  unfoldable pub getguy : Queue A → ℕ → Result A
  getguy q index = do assert (ltb index q.size); load q.words index
