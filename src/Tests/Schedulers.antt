-- ===== src/Tests/Schedulers.antt =====
-- kern/thread/scheduler.c on concrete run queues.
use cs325os.Base.{
  ℕ, zero, suc, ◌+◌, ◌%◌, ◌^◌, ◌<◌, ◌≡◌, refl, ◌⊎◌, Bool, true, false, none, some, List, [], ◌∷◌,
  ◌++◌, ok, arith, enomem, get_elem?, set, subst,
}
use cs325os.Queue.{Queue}
use cs325os.Queue.Model.{Holds}
use cs325os.Scheduler.{Scheduler, scheduler, make_runnable, shutdown}
use cs325os.Scheduler.Levels.{Levels}
use cs325os.Scheduler.Pick.{Highest, Chosen, scheduler-Highest}
use cs325os.Scheduler.Room.{make_runnable-Levels, shutdown_lem}

abbrev always : ℕ → Bool
always n = true

abbrev idle : Queue ℕ
idle = record { size = 2; nextwrite = 0; nextread = 0; words = none ∷ none ∷ [] }

-- The threads 5 and 6 wait.
abbrev busy : Queue ℕ
busy = record { size = 4; nextwrite = 2; nextread = 0; words = some 5 ∷ some 6 ∷ none ∷ none ∷ [] }

idle-Holds : Holds idle []
idle-Holds = record {
  free = omega arith;
  small = omega arith;
  backed = omega arith;
  start = omega arith;
  finish = refl;
  slots = λ k x e. cc;
}

busy-slots :
    (k x : ℕ)
    → get_elem? (5 ∷ 6 ∷ []) k ≡ some x
    → get_elem? busy.words ((0 + k) % 4) ≡ some (some x)
busy-slots zero x e = cc
busy-slots (suc zero) x e = cc
busy-slots (suc (suc k)) x e = cc

busy-Holds : Holds busy (5 ∷ 6 ∷ [])
busy-Holds = record {
  free = omega arith;
  small = omega arith;
  backed = omega arith;
  start = omega arith;
  finish = refl;
  slots = busy-slots;
}

abbrev queues : List (Queue ℕ)
queues = idle ∷ idle ∷ busy ∷ idle ∷ []

abbrev ready : List (List ℕ)
ready = [] ∷ [] ∷ (5 ∷ 6 ∷ []) ∷ [] ∷ []

moved : (q q' : Queue ℕ) (l l' : List ℕ) → Holds q l → q ≡ q' → l ≡ l' → Holds q' l'
moved q q' l l' h a b = subst (λ x. Holds x l') a (subst (λ y. Holds q y) b h)

queues-each :
    (i : ℕ) (q : Queue ℕ) (l : List ℕ)
    → get_elem? queues i ≡ some q
    → get_elem? ready i ≡ some l
    → Holds q l
queues-each zero q l eq el =
    let a : idle ≡ q = cc in let b : [] ≡ l = cc in moved idle q [] l idle-Holds a b
queues-each (suc zero) q l eq el =
    let a : idle ≡ q = cc in let b : [] ≡ l = cc in moved idle q [] l idle-Holds a b
queues-each (suc (suc zero)) q l eq el =
    let a : busy ≡ q = cc in
    let b : (5 ∷ 6 ∷ []) ≡ l = cc in moved busy q (5 ∷ 6 ∷ []) l busy-Holds a b
queues-each (suc (suc (suc zero))) q l eq el =
    let a : idle ≡ q = cc in let b : [] ≡ l = cc in moved idle q [] l idle-Holds a b
queues-each (suc (suc (suc (suc i)))) q l eq el = cc

queues-Levels : Levels queues ready
queues-Levels = record { same = refl; each = queues-each }

abbrev all_at_two : Scheduler
all_at_two = record { runqueue = queues; priority = λ t. 2 }

queues_small : (i : ℕ) (q : Queue ℕ) → get_elem? queues i ≡ some q → q.size < 2 ^ 29
queues_small zero q e = subst (λ x. x.size < 2 ^ 29) (let a : idle ≡ q = cc in a) (omega arith)
queues_small (suc zero) q e =
    subst (λ x. x.size < 2 ^ 29) (let a : idle ≡ q = cc in a) (omega arith)
queues_small (suc (suc zero)) q e =
    subst (λ x. x.size < 2 ^ 29) (let a : busy ≡ q = cc in a) (omega arith)
queues_small (suc (suc (suc zero))) q e =
    subst (λ x. x.size < 2 ^ 29) (let a : idle ≡ q = cc in a) (omega arith)
queues_small (suc (suc (suc (suc i)))) q e = cc

scheduler-Highest_example :
    (i : ℕ) × (t : ℕ) × (rest : List ℕ) × (s' : Scheduler) × (scheduler always
        ((3 ∷ []) ∷ [])
        all_at_two
      ≡ ok (t, s'))
    × Highest ready i t rest
    × Chosen all_at_two ready i t rest s'
scheduler-Highest_example =
    scheduler-Highest always ((3 ∷ []) ∷ []) all_at_two queues-Levels refl refl

make_runnable-Levels_example :
    ((l : List ℕ) × (s' : Scheduler) × (get_elem? ready 2 ≡ some l)
      × (make_runnable always all_at_two 9 ≡ ok (0, s'))
      × Levels s'.runqueue (set ready 2 (l ++ (9 ∷ [])))
      × (s'.priority ≡ all_at_two.priority))
    ⊎ ((n : ℕ) × (always n ≡ false) × (make_runnable always all_at_two 9 ≡ ok (enomem, all_at_two)))
make_runnable-Levels_example =
    make_runnable-Levels always all_at_two 9 queues-Levels (omega arith) queues_small

shutdown_lem_example : shutdown queues ≡ ok tt
shutdown_lem_example = shutdown_lem queues ready queues-Levels
