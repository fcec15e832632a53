-- ===== src/Tests/Threads.antt =====
-- kern/thread/thread.c and kern/thread/synch.c on two threads that share a semaphore.
use cs325os.Base.{
  ℕ, ◌+◌, ◌≡◌, refl, Bool, true, none, some, [], ◌∷◌, ok, panic, fault, no_fuel, Result, arith,
}
use cs325os.Array.{Array}
use cs325os.Queue
use cs325os.Queue.{Queue}
use cs325os.Scheduler
use cs325os.Scheduler.{Scheduler}
use cs325os.Thread
use cs325os.Thread.{Threads, s_ready}
use cs325os.Thread.Sleepers.{Listed}
use cs325os.Synch
use cs325os.Synch.{System}
use cs325os.Synch.Runs.{
  Run, start, next_step, passed, gave, other, p_passes, p_sleeps, v_gives, resumes, yields,
}
use cs325os.Synch.Safety.{NoneLost, Run-NoneLost}
use cs325os.Synch.Count.{passes, gifts, Run-count}

abbrev always : ℕ → Bool
always n = true

abbrev empty : Array ℕ
empty = record { num = 0; max = 2; v = some (none ∷ none ∷ []) }

abbrev idle : Queue ℕ
idle = record { size = 4; nextwrite = 0; nextread = 0; words = none ∷ none ∷ none ∷ none ∷ [] }

-- The thread 8 is ready.
abbrev one_ready : Queue ℕ
one_ready = record {
  size = 4;
  nextwrite = 1;
  nextread = 0;
  words = some 8 ∷ none ∷ none ∷ none ∷ [];
}

-- The thread 7 runs; the semaphore, at 100, has no token.
abbrev first : System
first = record {
  threads = record {
    sleepers = empty;
    zombies = empty;
    sched = record { runqueue = idle ∷ one_ready ∷ idle ∷ idle ∷ []; priority = λ t. 1 };
    curthread = some 7;
    sleepaddr = λ t. 0;
  };
  count = 0;
}

abbrev after_p : Result (Bool × System) → System
after_p (ok (b, s)) = s
after_p panic = first
after_p fault = first
after_p no_fuel = first

abbrev after_v : Result System → System
after_v (ok s) = s
after_v panic = first
after_v fault = first
after_v no_fuel = first

abbrev after : System → Result Threads → System
after s (ok threads) = record s { threads = threads }
after s panic = first
after s fault = first
after s no_fuel = first

-- 7 finds no token and sleeps.
abbrev s1 : System
s1 = after_p (Synch.p always 100 first)

-- 8 runs.
abbrev s2 : System
s2 = after s1 (Thread.resume s1.threads)

-- 8 calls V, which wakes 7.
abbrev s3 : System
s3 = after_v (Synch.v always 100 s2)

abbrev s4 : System
s4 = after s3 (Thread.stash always s_ready s3.threads)

abbrev s5 : System
s5 = after s4 (Thread.resume s4.threads)

-- 7 passes.
abbrev s6 : System
s6 = after_p (Synch.p always 100 s5)

Run-of_two : Run always 100 first (passed ∷ other ∷ other ∷ gave ∷ other ∷ other ∷ []) s6
unfolding Synch.p Synch.v Thread.sleep Thread.resume Thread.stash Thread.wakeup Thread.wakeup_from
    Thread.put_away Scheduler.dispatch Scheduler.make_runnable Scheduler.pick Queue.is_empty
    Queue.remhead Queue.addtail Queue.put cs325os.Array.add cs325os.Array.setsize
    cs325os.Array.resize cs325os.Array.getguy cs325os.Array.getnum cs325os.Array.remove
    cs325os.Array.move_down
Run-of_two =
    next_step passed
      (next_step other
        (next_step other
          (next_step gave
            (next_step other (next_step other start (p_sleeps first s1 (omega arith) refl))
              (resumes s1 s2.threads refl refl))
            (v_gives s2 s3 refl))
          (yields s3 s4.threads refl))
        (resumes s4 s5.threads refl refl))
      (p_passes s5 s6 refl)

empty-Listed : Listed empty []
empty-Listed = record { valid = omega arith; items_eq = refl }

first-NoneLost : NoneLost 100 first
first-NoneLost = record { sleeping = []; listed = empty-Listed; awake = refl }

Run-NoneLost_example : NoneLost 100 s6
Run-NoneLost_example = Run-NoneLost (omega arith) first-NoneLost Run-of_two

Run-count_example :
    s6.count + passes (passed ∷ other ∷ other ∷ gave ∷ other ∷ other ∷ [])
    ≡ 0 + gifts (passed ∷ other ∷ other ∷ gave ∷ other ∷ other ∷ [])
Run-count_example = Run-count Run-of_two
