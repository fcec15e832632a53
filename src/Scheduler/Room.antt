-- ===== src/Scheduler/Room.antt =====
-- kern/thread/scheduler.c: making threads runnable, and starting and stopping the scheduler.
use cs325os.Base.{
  leb, ◌&&◌, le→leb, set_same, replicate, ℕ, zero, suc, ◌≤◌, ◌<◌, ◌≡◌, refl, ap, subst, ◌⊎◌, inl,
  inr, Bool, true, false, some, List, [], ◌∷◌, ◌++◌, ◌^◌, ok, panic, arith, length, get_elem?,
  enomem, ◌==◌, set,
}
use cs325os.Queue
use cs325os.Queue.{Queue}
use cs325os.Queue.Model.{Holds, is_empty_iff, remhead-cons}
use cs325os.Queue.Refine.{addtail-Holds, create-Holds, preallocate-Holds as queue_preallocate}
use cs325os.Scheduler.Defs.{
  Scheduler, make_runnable, bootstrap, preallocate, drain, killall, destroy_all, shutdown,
}
use cs325os.Scheduler.Levels.{Levels, level, set-Levels, Levels-tail}

-- For a thread whose priority is one of the levels, and queues of fewer than 2 ^ 29 words,
-- `make_runnable` puts the thread behind those of its priority, or reports that memory is short and
-- changes nothing.
pub make_runnable-Levels :
    (room : ℕ → Bool) (s : Scheduler) {ls : List (List ℕ)} (t : ℕ)
    → Levels s.runqueue ls
    → s.priority t < length ls
    → ((i : ℕ) (q : Queue ℕ) → get_elem? s.runqueue i ≡ some q → q.size < 2 ^ 29)
    → ((l : List ℕ) × (s' : Scheduler) × (get_elem? ls (s.priority t) ≡ some l)
        × (make_runnable room s t ≡ ok (0, s'))
        × Levels s'.runqueue (set ls (s.priority t) (l ++ (t ∷ [])))
        × (s'.priority ≡ s.priority))
      ⊎ ((n : ℕ) × (room n ≡ false) × (make_runnable room s t ≡ ok (enomem, s)))
unfolding make_runnable
make_runnable-Levels room s {ls} t v lt small =
    let (q, l, eq, el, h) = level (s.priority t) v lt in
    elim (addtail-Holds room t h (small (s.priority t) q eq)) [
      | inl (q', e, h', _) ↦ inl (
        l,
        record s { runqueue = set s.runqueue (s.priority t) q' },
        el,
        rw (eq, e),
        set-Levels (s.priority t) q' (l ++ (t ∷ [])) v lt h',
        refl,
      )
      | inr (n, out, e) ↦ inr (
        n,
        out,
        rw (eq, e)
            (ap (λ qs. ok (enomem, record s { runqueue = qs }))
              (set_same s.runqueue (s.priority t) q eq)),
      )
    ]

cons-Levels :
    {q : Queue ℕ} {qs : List (Queue ℕ)} {l : List ℕ} {ls : List (List ℕ)}
    → Holds q l
    → Levels qs ls
    → Levels (q ∷ qs) (l ∷ ls)
cons-Levels {q} {qs} {l} {ls} h v = record { same = omega (arith, v.same); each = at }
  where
    at :
        (i : ℕ) (q' : Queue ℕ) (l' : List ℕ)
        → get_elem? (q ∷ qs) i ≡ some q'
        → get_elem? (l ∷ ls) i ≡ some l'
        → Holds q' l'
    at zero q' l' eq el =
        let a : q ≡ q' = cc in
        let b : l ≡ l' = cc in subst (λ x. Holds x l') a (subst (λ y. Holds q y) b h)
    at (suc i) q' l' eq el = v.each i q' l' eq el

-- `scheduler_bootstrap` makes the queues, all empty, or the kernel panics because memory is short.
pub bootstrap-Levels :
    (n : ℕ) (room : ℕ → Bool)
    → ((qs : List (Queue ℕ)) × (bootstrap n room ≡ ok qs) × Levels qs (replicate n []))
      ⊎ ((m : ℕ) × (room m ≡ false) × (bootstrap n room ≡ panic))
unfolding bootstrap
bootstrap-Levels zero room = inl ([], refl, record { same = refl; each = λ i q l eq el. cc })
bootstrap-Levels (suc n) room = elim (create-Holds {A = ℕ} room 32 (omega arith) (omega arith)) [
  | inl (q, e, h, _) ↦ elim (bootstrap-Levels n room) [
    | inl (qs, er, v) ↦ inl (q ∷ qs, rw (e, bootstrap) (rw er), cons-Levels h v)
    | inr (m, out, er) ↦ inr (m, out, rw (e, bootstrap) (rw er))
  ]
  | inr (m, out, e) ↦ inr (m, out, rw (e, bootstrap))
]

drain_lem :
    (f : ℕ) {q : Queue ℕ} (xs : List ℕ)
    → Holds q xs
    → length xs < f
    → (q' : Queue ℕ) × (drain f q ≡ ok q') × Holds q' []
unfolding drain
drain_lem zero xs h lt = absurd (omega arith)
drain_lem (suc f) {q} [] h lt = (q, rw (is_empty_iff h), h)
drain_lem (suc f) (x ∷ xs) h lt =
    let (q1, e1, h1, _) = remhead-cons h in
    let (q2, e2, h2) = drain_lem f xs h1 (omega arith) in
    let busy : (suc (length xs) == 0) ≡ false = ground arith in
    (q2, rw (is_empty_iff h, busy, e1) e2, h2)

abbrev all_nil : List (List ℕ) → List (List ℕ)
all_nil [] = []
all_nil (l ∷ ls) = [] ∷ all_nil ls

killall_lem :
    (qs : List (Queue ℕ)) (ls : List (List ℕ))
    → Levels qs ls
    → (qs' : List (Queue ℕ)) × (killall qs ≡ ok qs') × Levels qs' (all_nil ls)
unfolding killall
killall_lem [] [] v = ([], refl, v)
killall_lem [] (l ∷ ls) v = absurd (omega (arith, v.same))
killall_lem (q ∷ qs) [] v = absurd (omega (arith, v.same))
killall_lem (q ∷ qs) (l ∷ ls) v =
    let h = v.each 0 q l refl refl in
    let (q', e, h') = drain_lem q.size l h h.free in
    let (qs', es, v') = killall_lem qs ls (Levels-tail v) in
    (q' ∷ qs', rw (e, es), cons-Levels h' v')

empty_test : {q : Queue ℕ} → Holds q [] → (q.nextwrite == q.nextread) ≡ true
unfolding Queue.is_empty
empty_test h = is_empty_iff h

destroy_all_lem :
    (qs : List (Queue ℕ)) (ls : List (List ℕ)) → Levels qs (all_nil ls) → destroy_all qs ≡ ok tt
unfolding destroy_all Queue.destroy
destroy_all_lem [] ls v = refl
destroy_all_lem (q ∷ qs) [] v = absurd (omega (arith, v.same))
destroy_all_lem (q ∷ qs) (l ∷ ls) v =
    let e = empty_test (v.each 0 q [] refl refl) in rw e (destroy_all_lem qs ls (Levels-tail v))

-- `scheduler_shutdown` returns, whatever threads are ready: the queues are empty when it destroys them.
pub shutdown_lem : (qs : List (Queue ℕ)) (ls : List (List ℕ)) → Levels qs ls → shutdown qs ≡ ok tt
unfolding shutdown
shutdown_lem qs ls v = let (qs', e, v') = killall_lem qs ls v in rw e (destroy_all_lem qs' ls v')

-- Every queue has room for `n` words.
abbrev pub all_of_size : ℕ → List (Queue ℕ) → Bool
all_of_size n [] = true
all_of_size n (q ∷ qs) = leb n q.size && all_of_size n qs

-- For a number up to 2 ^ 29, `scheduler_preallocate` makes every queue at least as large as asked,
-- or reports that memory is short; in both cases no thread is lost or moved.
pub preallocate-Levels :
    (room : ℕ → Bool) (qs : List (Queue ℕ)) (ls : List (List ℕ)) (nthreads : ℕ)
    → Levels qs ls
    → nthreads ≤ 2 ^ 29
    → (qs' : List (Queue ℕ)) × Levels qs' ls
      × (((preallocate room qs nthreads ≡ ok (0, qs')) × (all_of_size nthreads qs' ≡ true))
          ⊎ ((n : ℕ) × (room n ≡ false) × (preallocate room qs nthreads ≡ ok (enomem, qs'))))
unfolding preallocate
preallocate-Levels room [] ls nthreads v small = ([], v, inl (refl, refl))
preallocate-Levels room (q ∷ qs) [] nthreads v small = absurd (omega (arith, v.same))
preallocate-Levels room (q ∷ qs) (l ∷ ls) nthreads v small =
    let (qs', v', r) = preallocate-Levels room qs ls nthreads (Levels-tail v) small in
    elim (queue_preallocate room nthreads (v.each 0 q l refl refl) small) [
      | inl (q', e, h', large) ↦ (
        q' ∷ qs',
        cons-Levels h' v',
        elim r [
          | inl (er, sizes) ↦ inl (rw (e, er), rw (le→leb nthreads q'.size large, sizes))
          | inr (n, out, er) ↦ inr (n, out, rw (e, er))
        ],
      )
      | inr (n, out, e) ↦ (q ∷ qs, v, inr (n, out, rw e))
    ]
