-- ===== src/RoundRobin/Turns.antt =====
-- kern/thread/scheduler.c, round robin: each ready thread has its turn.
use cs325os.Base.{
  ℕ, suc, ◌+◌, ◌<◌, ◌≡◌, refl, sym, ap, subst, Bool, false, ◌==◌, List, [], ◌∷◌, ◌++◌, Result, ok,
  ◌>>=◌, ◌>>◌, assert, arith, length, length-append,
}
use cs325os.Queue.{Queue}
use cs325os.Queue.Model.{Holds, is_empty_iff, remhead-cons}
use cs325os.Queue.Refine.{addtail_spare}
use cs325os.RoundRobin.Defs.{scheduler, idle_loop, make_runnable}

-- `thread_yield` of the thread `t`: it goes behind the others, and `scheduler` chooses the next.
abbrev pub yield : (ℕ → Bool) → Queue ℕ → ℕ → Result (ℕ × Queue ℕ)
yield room q t = do
  (result, q') ← make_runnable room q t
  assert (result == 0)
  scheduler room [] q'

-- As many yields as there are threads in the list; the threads that run after each.
abbrev pub yields : (ℕ → Bool) → List ℕ → Queue ℕ → ℕ → Result (List ℕ × Queue ℕ)
yields room [] q t = ok ([], q)
yields room (x ∷ xs) q t =
    yield room q t >>= λ (next, q'). yields room xs q' next >>= λ (ts, q''). ok (next ∷ ts, q'')

scheduler-head :
    (room : ℕ → Bool) {q : Queue ℕ} {x : ℕ} {xs : List ℕ}
    → Holds q (x ∷ xs)
    → (q' : Queue ℕ) × (scheduler room [] q ≡ ok (x, q')) × Holds q' xs × (q'.size ≡ q.size)
unfolding scheduler idle_loop
scheduler-head room {q} {x} {xs} h =
    let (q', e, h', same) = remhead-cons h in
    let busy : (suc (length xs) == 0) ≡ false = ground arith in
    (q', rw (is_empty_iff h, busy) e, h', same)

yield-next :
    (room : ℕ → Bool) {q : Queue ℕ} (t x : ℕ) (xs : List ℕ)
    → Holds q (x ∷ xs)
    → length xs + 2 < q.size
    → (q' : Queue ℕ) × (yield room q t ≡ ok (x, q'))
      × Holds q' (xs ++ (t ∷ []))
      × (q'.size ≡ q.size)
unfolding make_runnable
yield-next room {q} t x xs h lt =
    let (q1, e1, h1, s1) = addtail_spare room t h (omega arith) in
    let (q2, e2, h2, s2) = scheduler-head room h1 in (q2, rw (e1, e2), h2, omega (arith, s1, s2))

snoc-append : (xs done : List ℕ) (t : ℕ) → (xs ++ done) ++ (t ∷ []) ≡ xs ++ (done ++ (t ∷ []))
snoc-append [] done t = refl
snoc-append (x ∷ xs) done t = ap (λ l. x ∷ l) (snoc-append xs done t)

append-nil : (xs : List ℕ) → xs ++ [] ≡ xs
append-nil [] = refl
append-nil (x ∷ xs) = ap (λ l. x ∷ l) (append-nil xs)

turns_from :
    (room : ℕ → Bool) (xs done : List ℕ) (t : ℕ) {q : Queue ℕ}
    → Holds q (xs ++ done)
    → length (xs ++ done) + 1 < q.size
    → (q' : Queue ℕ) × (yields room xs q t ≡ ok (xs, q'))
turns_from room [] done t {q} h lt = (q, refl)
turns_from room (x ∷ xs) done t {q} h lt =
    let (q1, e1, h1, s1) = yield-next room t x (xs ++ done) h (omega (arith, lt)) in
    let l : length ((xs ++ done) ++ (t ∷ [])) ≡ length (xs ++ done) + 1 =
      omega (arith, length-append (xs ++ done) (t ∷ [])) in
    let same = snoc-append xs done t in
    let len : length (xs ++ (done ++ (t ∷ []))) ≡ length (xs ++ done) + 1 =
      subst (λ y. length y ≡ length (xs ++ done) + 1) same l in
    let (q2, e2) =
      turns_from room xs (done ++ (t ∷ [])) x (subst (λ y. Holds q1 y) same h1)
        (omega (arith, len, s1, lt)) in
    (q2, rw (e1, e2))

-- When every thread yields, the ready ones run in the order of the queue, each once, whatever memory
-- there is, provided the ring has a place for all.
pub turns :
    (room : ℕ → Bool) {q : Queue ℕ} (t : ℕ) (xs : List ℕ)
    → Holds q xs
    → length xs + 1 < q.size
    → (q' : Queue ℕ) × (yields room xs q t ≡ ok (xs, q'))
turns room {q} t xs h lt =
    let same = sym (append-nil xs) in
    turns_from room xs [] t (subst (λ y. Holds q y) same h)
      (subst (λ y. length y + 1 < q.size) same lt)
