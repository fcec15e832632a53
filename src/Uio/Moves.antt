-- ===== src/Uio/Moves.antt =====
-- kern/userprog/uio.c: what a call of uiomove moves.
use cs325os.Base.{
  ℕ, suc, ◌+◌, ◌-◌, ◌%◌, ◌<◌, ◌≡◌, ◌∙◌, inl, inr, true, false, ◌&&◌, Option, ltb, ◌==◌,
  if◌then◌else◌, Result, ok, Bool-cases, arith,
}
use cs325os.Uio.Defs.{Uio, Copier, transfer, advance, move_loop, uiomove, space_ok, word}

abbrev pub smaller : ℕ → ℕ → ℕ
smaller n len = if ltb n len then n else len

module _ {M : Type 0} (c : Copier M) where
  -- One copy of as much as the count and the buffer allow, or none.
  abbrev pub moved : ℕ → ℕ → Uio → M → Result (ℕ × Uio × M)
  moved ptr n u m =
      if ltb 0 n && ltb 0 u.len
      then (let (result, m') = transfer c u.segflg u.rw_mode ptr u.base (smaller n u.len) m in
          if result == 0 then ok (0, advance c u (smaller n u.len), m') else ok (result, u, m'))
      else ok (0, u, m)

  last_round :
      (f ptr n : ℕ) (u : Uio) (m : M)
      → (ltb 0 n && ltb 0 u.resid) ≡ false
      → move_loop c (suc f) ptr n u m ≡ ok (0, u, m)
  unfolding move_loop
  last_round f ptr n u m done = rw done

  one_round :
      (f ptr n : ℕ) (u : Uio) (m : M)
      → (ltb 0 n && ltb 0 u.resid) ≡ true
      → (smaller n u.len == 0) ≡ false
      → move_loop c (suc f) ptr n u m ≡ (
          let (result, m') = transfer c u.segflg u.rw_mode ptr u.base (smaller n u.len) m in
          if result == 0
          then move_loop c f
              ((ptr + smaller n u.len) % word)
              (n - smaller n u.len)
              (advance c u (smaller n u.len))
              m'
          else ok (result, u, m'))
  unfolding move_loop
  one_round f ptr n u m more some_size = rw (more, some_size)

  started :
      (vmspace : Option ℕ) (ptr n : ℕ) (u : Uio) (m : M)
      → space_ok c u.segflg u.space vmspace ≡ true
      → uiomove c vmspace ptr n u m ≡ move_loop c 3 ptr n u m
  unfolding uiomove
  started vmspace ptr n u m space = rw space

  -- After a round either the count or the residual is 0.
  no_more :
      (n : ℕ) (u : Uio)
      → u.resid ≡ u.len
      → u.len < word
      → (ltb 0 (n - smaller n u.len) && ltb 0 ((u.resid + word - smaller n u.len) % word)) ≡ false
  no_more n u whole small = elim (Bool-cases (ltb n u.len)) [
    | inl all ↦ ground arith
    | inr part ↦ ground arith
  ]

  second :
      (r : ℕ × M) (ptr n : ℕ) (u : Uio)
      → (ltb 0 (n - smaller n u.len) && ltb 0 ((u.resid + word - smaller n u.len) % word)) ≡ false
      → (let (result, m') = r in
          if result == 0
          then move_loop c 2
              ((ptr + smaller n u.len) % word)
              (n - smaller n u.len)
              (advance c u (smaller n u.len))
              m'
          else ok (result, u, m'))
        ≡ (let (result, m') = r in
            if result == 0 then ok (0, advance c u (smaller n u.len), m') else ok (result, u, m'))
  second (result, m') ptr n u done = elim (Bool-cases (result == 0)) [
    | inl fine ↦ rw fine (
        last_round 1 ((ptr + smaller n u.len) % word) (n - smaller n u.len)
          (advance c u (smaller n u.len)) m' done)
    | inr error ↦ rw error
  ]

  -- If the residual is the length of the buffer, `uiomove` copies once, as much as the count and the
  -- buffer allow, and reports that in every field, or returns the error of the copy and leaves the uio
  -- as it was. Nothing is copied if either is 0.
  pub uiomove-moved :
      (vmspace : Option ℕ) (ptr n : ℕ) (u : Uio) (m : M)
      → space_ok c u.segflg u.space vmspace ≡ true
      → u.resid ≡ u.len
      → u.len < word
      → uiomove c vmspace ptr n u m ≡ moved ptr n u m
  uiomove-moved vmspace ptr n u m space whole small = elim (Bool-cases (ltb 0 n && ltb 0 u.len)) [
    | inr nothing ↦
        let stop : (ltb 0 n && ltb 0 u.resid) ≡ false = ground arith in
        started vmspace ptr n u m space ∙ (last_round 2 ptr n u m stop ∙ rw nothing)
    | inl some_bytes ↦
        let more : (ltb 0 n && ltb 0 u.resid) ≡ true = ground arith in
        let some_size : (smaller n u.len == 0) ≡ false = ground arith in
        started vmspace ptr n u m space
        ∙ (one_round 2 ptr n u m more some_size
            ∙ rw some_bytes (
                second (transfer c u.segflg u.rw_mode ptr u.base (smaller n u.len) m) ptr n u
                  (no_more n u whole small)))
  ]
