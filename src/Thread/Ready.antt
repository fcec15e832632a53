-- ===== src/Thread/Ready.antt =====
-- kern/thread/thread.c: with the room that thread_fork asks for, waking threads cannot fail.
use cs325os.Base.{
  ℕ, zero, suc, ◌+◌, ◌<◌, ◌≡◌, refl, sym, subst, inl, inr, Bool, some, List, [], ◌∷◌, ◌++◌, ok,
  arith, length, get_elem?, get_elem?-set, length-append, Bool-cases, ◌==◌, set,
}
use cs325os.Queue.{Queue}
use cs325os.Queue.Refine.{addtail_spare}
use cs325os.Scheduler
use cs325os.Scheduler.{Scheduler}
use cs325os.Scheduler.Levels.{Levels, level, set-Levels}
use cs325os.Thread.Defs.{Threads, wakeup}
use cs325os.Thread.Sleepers.{Listed, woken, others, wakeup-wake}

-- Each queue has places for `n` threads more.
pub record Spare (n : ℕ) (qs : List (Queue ℕ)) (ls : List (List ℕ)) : Type 0 where
  pub places :
      (i : ℕ) (q : Queue ℕ) (l : List ℕ)
      → get_elem? qs i ≡ some q
      → get_elem? ls i ≡ some l
      → length l + n < q.size

-- The thread `t` behind the others of the level `i`.
abbrev pub join : ℕ → ℕ → List (List ℕ) → List (List ℕ)
join i t [] = []
join zero t (l ∷ ls) = (l ++ (t ∷ [])) ∷ ls
join (suc i) t (l ∷ ls) = l ∷ join i t ls

-- The threads `ts` one after another, each behind the others of its priority.
abbrev pub join_all : (ℕ → ℕ) → List ℕ → List (List ℕ) → List (List ℕ)
join_all priority [] ls = ls
join_all priority (t ∷ ts) ls = join_all priority ts (join (priority t) t ls)

join-set :
    (i t : ℕ) (ls : List (List ℕ)) (l : List ℕ)
    → get_elem? ls i ≡ some l
    → join i t ls ≡ set ls i (l ++ (t ∷ []))
join-set i t [] l e = refl
join-set zero t (l' ∷ ls) l e = let a : l' ≡ l = cc in rw a
join-set (suc i) t (l' ∷ ls) l e = rw (join-set i t ls l e)

length-join : (i t : ℕ) (ls : List (List ℕ)) → length (join i t ls) ≡ length ls
length-join i t [] = refl
length-join zero t (l ∷ ls) = refl
length-join (suc i) t (l ∷ ls) = omega (arith, length-join i t ls)

set-Spare :
    {qs : List (Queue ℕ)} {ls : List (List ℕ)} (n i t : ℕ) (q : Queue ℕ) (l : List ℕ)
    → Levels qs ls
    → i < length ls
    → Spare (suc n) qs ls
    → length l + suc n < q.size
    → Spare n (set qs i q) (set ls i (l ++ (t ∷ [])))
set-Spare {qs} {ls} n i t q l v lt sp room = record {
  places = λ j q' l' eq el. elim (Bool-cases (i == j)) [
    | inl hit ↦
        let a : q ≡ q' = ground (arith, get_elem?-set qs i j q (omega (arith, v.same)), hit) in
        let b : l ++ (t ∷ []) ≡ l' = ground (arith, get_elem?-set ls i j (l ++ (t ∷ [])) lt, hit) in
        subst (λ x. length l' + n < x.size) a
          (subst (λ y. length y + n < q.size) b (omega (arith, length-append l (t ∷ []))))
    | inr miss ↦
        let p =
          sp.places j q' l' (ground (arith, get_elem?-set qs i j q (omega (arith, v.same)), miss))
            (ground (arith, get_elem?-set ls i j (l ++ (t ∷ [])) lt, miss)) in
        omega (arith, p)
  ];
}

make_runnable-Spare :
    (room : ℕ → Bool) (s : Scheduler) {ls : List (List ℕ)} (n t : ℕ)
    → Levels s.runqueue ls
    → s.priority t < length ls
    → Spare (suc n) s.runqueue ls
    → (qs : List (Queue ℕ)) × (Scheduler.make_runnable room s t
        ≡ ok (0, record s { runqueue = qs }))
      × Levels qs (join (s.priority t) t ls)
      × Spare n qs (join (s.priority t) t ls)
unfolding Scheduler.make_runnable
make_runnable-Spare room s {ls} n t v lt sp =
    let (q, l, eq, el, h) = level (s.priority t) v lt in
    let free = sp.places (s.priority t) q l eq el in
    let (q', e, h', same) = addtail_spare room t h (omega (arith, free)) in
    let j = join-set (s.priority t) t ls l el in
    (
      set s.runqueue (s.priority t) q',
      rw (eq, e),
      subst (λ x. Levels (set s.runqueue (s.priority t) q') x) (sym j)
          (set-Levels (s.priority t) q' (l ++ (t ∷ [])) v lt h'),
      subst (λ x. Spare n (set s.runqueue (s.priority t) q') x) (sym j)
          (set-Spare n (s.priority t) t q' l v lt sp (omega (arith, free, same))),
    )

-- With a place in each queue for every thread to wake, `make_runnable` never fails, whatever memory
-- there is: each thread stands behind the others of its priority, in the order of the list.
pub wake-join_all :
    (room : ℕ → Bool) (ts : List ℕ) (s : Scheduler) {ls : List (List ℕ)} (n : ℕ)
    → Levels s.runqueue ls
    → ((t : ℕ) → s.priority t < length ls)
    → Spare (length ts + n) s.runqueue ls
    → (qs : List (Queue ℕ)) × (Scheduler.wake room ts s ≡ ok (record s { runqueue = qs }))
      × Levels qs (join_all s.priority ts ls)
      × Spare n qs (join_all s.priority ts ls)
unfolding Scheduler.wake
wake-join_all room [] s {ls} n v ranked sp =
    let e : 0 + n ≡ n = omega arith in
    (s.runqueue, refl, v, subst (λ k. Spare k s.runqueue ls) e sp)
wake-join_all room (t ∷ ts) s {ls} n v ranked sp =
    let step : suc (length ts) + n ≡ suc (length ts + n) = omega arith in
    let (qs, e, v', sp') =
      make_runnable-Spare room s (length ts + n) t v (ranked t)
        (subst (λ k. Spare k s.runqueue ls) step sp) in
    let (qs', e', v'', sp'') =
      wake-join_all room ts (record s { runqueue = qs }) n v'
        (λ u. omega (arith, ranked u, length-join (s.priority t) t ls)) sp' in
    (qs', rw e e', v'', sp'')

-- If the priority of every thread is one of the levels and each queue has a place for every thread
-- to wake, `thread_wakeup` returns, whatever memory there is: the sleepers on the address stand
-- behind the other threads of their priority, and the others sleep on.
pub wakeup-join_all :
    (room : ℕ → Bool) (addr : ℕ) (s : Threads) {xs : List ℕ} {ls : List (List ℕ)} (n : ℕ)
    → Listed s.sleepers xs
    → Levels s.sched.runqueue ls
    → ((t : ℕ) → s.sched.priority t < length ls)
    → Spare (length (woken addr s.sleepaddr xs) + n) s.sched.runqueue ls
    → (s' : Threads) × (wakeup room addr s ≡ ok s')
      × Listed s'.sleepers (others addr s.sleepaddr xs)
      × Levels s'.sched.runqueue (join_all s.sched.priority (woken addr s.sleepaddr xs) ls)
      × (s'.curthread ≡ s.curthread)
wakeup-join_all room addr s {xs} n h v ranked sp =
    let (a', h', e) = wakeup-wake room addr s h in
    let (qs, ew, v', _) = wake-join_all room (woken addr s.sleepaddr xs) s.sched n v ranked sp in
    (
      record s { sleepers = a'; sched = record s.sched { runqueue = qs } },
      rw e (rw ew),
      h',
      v',
      refl,
    )
