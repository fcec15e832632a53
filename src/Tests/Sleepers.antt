-- ===== src/Tests/Sleepers.antt =====
-- kern/thread/thread.c and kern/thread/synch.c on a state with two sleepers.
use cs325os.Base.{
  ℕ, zero, suc, ◌+◌, ◌<◌, ◌≡◌, refl, subst, Bool, false, none, some, List, [], ◌∷◌, ok, panic,
  arith, get_elem?, length, ◌>>=◌, if◌then◌else◌, ◌==◌,
}
use cs325os.Array.{Array}
use cs325os.Queue.{Queue}
use cs325os.Queue.Model.{Holds}
use cs325os.Scheduler
use cs325os.Scheduler.Levels.{Levels}
use cs325os.Thread
use cs325os.Thread.{Threads}
use cs325os.Thread.Sleepers.{Listed, wakeup-wake}
use cs325os.Thread.Ready.{Spare, wakeup-join_all}
use cs325os.Synch
use cs325os.Synch.{System}
use cs325os.Synch.Tokens.{v-join_all, sem_destroy-any_on}

abbrev never : ℕ → Bool
never n = false

abbrev idle : Queue ℕ
idle = record { size = 4; nextwrite = 0; nextread = 0; words = none ∷ none ∷ none ∷ none ∷ [] }

abbrev queues : List (Queue ℕ)
queues = idle ∷ idle ∷ idle ∷ idle ∷ []

abbrev levels : List (List ℕ)
levels = [] ∷ [] ∷ [] ∷ [] ∷ []

-- 7 sleeps on 100, 9 on 50.
abbrev asleep : Threads
asleep = record {
  sleepers = record { num = 2; max = 2; v = some (some 7 ∷ some 9 ∷ []) };
  zombies = record { num = 0; max = 0; v = none };
  sched = record { runqueue = queues; priority = λ t. 1 };
  curthread = some 3;
  sleepaddr = λ t. if t == 7 then 100 else 50;
}

abbrev tokens : System
tokens = record { threads = asleep; count = 0 }

asleep-Listed : Listed asleep.sleepers (7 ∷ 9 ∷ [])
asleep-Listed = record { valid = omega arith; items_eq = refl }

idle-Holds : Holds idle []
idle-Holds = record {
  free = omega arith;
  small = omega arith;
  backed = omega arith;
  start = omega arith;
  finish = refl;
  slots = λ k x e. cc;
}

queue_idle : (i : ℕ) (q : Queue ℕ) → get_elem? queues i ≡ some q → idle ≡ q
queue_idle zero q e = cc
queue_idle (suc zero) q e = cc
queue_idle (suc (suc zero)) q e = cc
queue_idle (suc (suc (suc zero))) q e = cc
queue_idle (suc (suc (suc (suc i)))) q e = cc

level_empty : (i : ℕ) (l : List ℕ) → get_elem? levels i ≡ some l → [] ≡ l
level_empty zero l e = cc
level_empty (suc zero) l e = cc
level_empty (suc (suc zero)) l e = cc
level_empty (suc (suc (suc zero))) l e = cc
level_empty (suc (suc (suc (suc i)))) l e = cc

queues-Levels : Levels queues levels
queues-Levels = record {
  same = refl;
  each = λ i q l eq el.
      subst (λ x. Holds x l) (queue_idle i q eq)
        (subst (λ y. Holds idle y) (level_empty i l el) idle-Holds);
}

queues-Spare : Spare (1 + 1) queues levels
queues-Spare = record {
  places = λ i q l eq el.
      subst (λ x. length l + 2 < x.size) (queue_idle i q eq)
        (subst (λ y. length y + 2 < 4) (level_empty i l el) (omega arith));
}

ranked : (t : ℕ) → 1 < 4
ranked t = omega arith

wakeup-wake_example :
    (a' : Array ℕ) × Listed a' (9 ∷ [])
    × (Thread.wakeup never 100 asleep ≡ (
        Scheduler.wake never (7 ∷ []) asleep.sched >>= λ c.
        ok (record asleep { sleepers = a'; sched = c })))
wakeup-wake_example = wakeup-wake never 100 asleep asleep-Listed

wakeup-join_all_example :
    (s' : Threads) × (Thread.wakeup never 100 asleep ≡ ok s')
    × Listed s'.sleepers (9 ∷ [])
    × Levels s'.sched.runqueue ([] ∷ (7 ∷ []) ∷ [] ∷ [] ∷ [])
    × (s'.curthread ≡ some 3)
wakeup-join_all_example =
    wakeup-join_all never 100 asleep 1 asleep-Listed queues-Levels ranked queues-Spare

v-join_all_example :
    (s' : System) × (Synch.v never 100 tokens ≡ ok s')
    × (s'.count ≡ 1)
    × Listed s'.threads.sleepers (9 ∷ [])
    × Levels s'.threads.sched.runqueue ([] ∷ (7 ∷ []) ∷ [] ∷ [] ∷ [])
v-join_all_example =
    v-join_all never 100 tokens 1 asleep-Listed queues-Levels ranked queues-Spare (omega arith)
      (omega arith)

sem_destroy-any_on_example : Synch.sem_destroy 100 tokens ≡ panic
sem_destroy-any_on_example = sem_destroy-any_on 100 tokens asleep-Listed
