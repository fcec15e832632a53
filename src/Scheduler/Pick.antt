-- ===== src/Scheduler/Pick.antt =====
-- kern/thread/scheduler.c: `scheduler` returns the oldest thread of the highest level that has one.
use cs325os.Base.{
  ℕ, zero, suc, ◌-◌, ◌≤◌, ◌<◌, ◌≡◌, ◌≢◌, refl, subst, inl, inr, Bool, true, false, some, ltb, List,
  [], ◌∷◌, Bool-cases, if◌then◌else◌, ok, arith, length, get_elem?, get_elem?-of_lt, ltb→lt, ◌==◌,
  lt_of_get_elem?, set,
}
use cs325os.Queue.{Queue}
use cs325os.Queue.Model.{Holds, is_empty_iff, remhead-cons}
use cs325os.Scheduler.Defs.{Scheduler, num_priorities, pick, dispatch, idle_loop, scheduler, update}
use cs325os.Scheduler.Levels.{Levels, level, set-Levels, none_ready, all_empty_iff}

-- No level above `i`, up to `n`, has a thread.
abbrev Above : ℕ → ℕ → List (List ℕ) → Type 0
Above i n ls = (j : ℕ) (l : List ℕ) → i < j → j ≤ n → get_elem? ls j ≡ some l → l ≡ []

nil_of_length : (l : List ℕ) → (length l == 0) ≡ true → l ≡ []
nil_of_length [] h = refl
nil_of_length (x ∷ l) h = absurd (ground (arith, h))

pick_lem :
    (n : ℕ) {qs : List (Queue ℕ)} {ls : List (List ℕ)}
    → Levels qs ls
    → n < length ls
    → (i : ℕ) × (pick n qs ≡ ok i)
      × (i ≤ n)
      × Above i n ls
      × ((l : List ℕ) → get_elem? ls i ≡ some l → 0 < i → (length l == 0) ≡ false)
unfolding pick
pick_lem zero v lt =
    (0, refl, omega arith, λ j l a b e. absurd (omega arith), λ l e p. absurd (omega arith))
pick_lem (suc n) {qs} {ls} v lt =
    let (q, l, eq, el, h) = level (suc n) v lt in
    let em = is_empty_iff h in
    elim (Bool-cases (length l == 0)) [
      | inl nil ↦
          let (i, e, le, above, here) = pick_lem n v (omega arith) in
          (
            i,
            rw (eq, em, nil) e,
            omega arith,
            λ j l' a b e'. elim (Bool-cases (j == suc n)) [
              | inl last ↦
                  let ej : j ≡ suc n = ground arith in
                  let es : get_elem? ls (suc n) ≡ some l' =
                    subst (λ k. get_elem? ls k ≡ some l') ej e' in
                  let same : l ≡ l' = cc in subst (λ x. x ≡ []) same (nil_of_length l nil)
              | inr below ↦ above j l' a (ground arith) e'
            ],
            here,
          )
      | inr some_left ↦ (
        suc n,
        rw (eq, em, some_left),
        omega arith,
        λ j l a b e. absurd (omega arith),
        λ l' e p. let a : l ≡ l' = cc in subst (λ x. (length x == 0) ≡ false) a some_left,
      )
    ]

all_nil :
    (ls : List (List ℕ))
    → ((j : ℕ) (l : List ℕ) → get_elem? ls j ≡ some l → l ≡ [])
    → none_ready ls ≡ true
all_nil [] h = refl
all_nil (l ∷ ls) h = rw (h 0 l refl, all_nil ls (λ j l' e. h (suc j) l' e))

-- `t` is the oldest thread of the level `i`, before those of `rest`, and no level above has a thread.
pub record Highest (ls : List (List ℕ)) (i t : ℕ) (rest : List ℕ) : Type 0 where
  pub here : get_elem? ls i ≡ some (t ∷ rest)
  pub above : (j : ℕ) (l : List ℕ) → i < j → get_elem? ls j ≡ some l → l ≡ []

highest :
    (ls : List (List ℕ)) (i n : ℕ)
    → length ls ≡ suc n
    → i ≤ n
    → Above i n ls
    → ((l : List ℕ) → get_elem? ls i ≡ some l → 0 < i → (length l == 0) ≡ false)
    → none_ready ls ≡ false
    → (t : ℕ) × (rest : List ℕ) × Highest ls i t rest
highest ls i n len le above here ready = let (l, e) = get_elem?-of_lt ls i (omega arith) in go l e
  where
    up : (j : ℕ) (l : List ℕ) → i < j → get_elem? ls j ≡ some l → l ≡ []
    up j l a e = above j l a (omega (arith, lt_of_get_elem? ls j e)) e

    go : (l : List ℕ) → get_elem? ls i ≡ some l → (t : ℕ) × (rest : List ℕ) × Highest ls i t rest
    go (t ∷ rest) e = (t, rest, record { here = e; above = up })
    go [] e = elim (Bool-cases (ltb 0 i)) [
      | inl high ↦ absurd (ground (arith, here [] e (ltb→lt 0 i high)))
      | inr low ↦
          let all : none_ready ls ≡ true = all_nil ls λ j l' e'. elim (Bool-cases (ltb i j)) [
            | inl lt ↦ up j l' (ltb→lt i j lt) e'
            | inr ge ↦
                let ej : j ≡ i = ground arith in
                let es : get_elem? ls i ≡ some l' = subst (λ k. get_elem? ls k ≡ some l') ej e' in
                cc
          ] in
          cc
    ]

-- What `scheduler` leaves behind when it has chosen `t` from the level `i`.
pub record Chosen (s : Scheduler) (ls : List (List ℕ)) (i t : ℕ) (rest : List ℕ) (s' : Scheduler)
    : Type 0 where
  pub levels : Levels s'.runqueue (set ls i rest)
  pub lowered : s'.priority t ≡ s.priority t - 1
  pub others : (u : ℕ) → t ≢ u → s'.priority u ≡ s.priority u

dispatch_lem :
    (s : Scheduler) {ls : List (List ℕ)}
    → Levels s.runqueue ls
    → length ls ≡ num_priorities
    → none_ready ls ≡ false
    → (i : ℕ) × (t : ℕ) × (rest : List ℕ) × (s' : Scheduler) × (dispatch s ≡ ok (t, s'))
      × Highest ls i t rest
      × Chosen s ls i t rest s'
unfolding dispatch
dispatch_lem s {ls} v len ready =
    let (i, ei, le, above, here) = pick_lem 3 v (omega arith) in
    let (t, rest, hi) = highest ls i 3 len le above here ready in
    let (q, l, eq, el, h) = level i v (omega arith) in
    let same : l ≡ t ∷ rest = let a = hi.here in cc in
    let (q', er, h', _) = remhead-cons (subst (λ x. Holds q x) same h) in
    (
      i,
      t,
      rest,
      record {
        runqueue = set s.runqueue i q';
        priority =
            if ltb 0 (s.priority t) then update s.priority t (s.priority t - 1) else s.priority;
      },
      rw (ei, eq, er),
      hi,
      record {
        levels = set-Levels i q' rest v (omega arith) h';
        lowered = ground arith;
        others = λ u ne. ground arith;
      },
    )

-- With a thread ready, `scheduler` returns the oldest thread of the highest level that has one, takes
-- it out of its queue, and lowers its priority by one unless it is 0. Nothing else changes.
pub scheduler-Highest :
    (room : ℕ → Bool) (interrupts : List (List ℕ)) (s : Scheduler) {ls : List (List ℕ)}
    → Levels s.runqueue ls
    → length ls ≡ num_priorities
    → none_ready ls ≡ false
    → (i : ℕ) × (t : ℕ) × (rest : List ℕ) × (s' : Scheduler) × (scheduler room interrupts s
        ≡ ok (t, s'))
      × Highest ls i t rest
      × Chosen s ls i t rest s'
unfolding scheduler idle_loop
scheduler-Highest room [] s {ls} v len ready =
    let e = all_empty_iff s.runqueue ls v in rw (e, ready) (dispatch_lem s v len ready)
scheduler-Highest room (ts ∷ rest) s {ls} v len ready =
    let e = all_empty_iff s.runqueue ls v in rw (e, ready) (dispatch_lem s v len ready)
