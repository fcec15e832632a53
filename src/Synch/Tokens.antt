-- ===== src/Synch/Tokens.antt =====
-- kern/thread/synch.c: what V and sem_destroy do to the threads.
use cs325os.Base.{
  ℕ, ◌+◌, ◌<◌, ◌≡◌, refl, Bool, true, false, not, ltb, ◌==◌, ◌≢◌, ◌&&◌, Bool-cases, inl, inr, ok,
  assert, arith, List, length, int_limit,
}
use cs325os.Scheduler.Levels.{Levels}
use cs325os.Thread.Sleepers.{Listed, any_on, woken, others, hassleepers-any_on}
use cs325os.Thread.Ready.{Spare, join_all, wakeup-join_all}
use cs325os.Synch.Defs.{System, v, sem_destroy}

-- If the semaphore is not NULL, the priority of every thread is one of the levels, each run queue has a place for every thread
-- to wake, and the count is not the largest `int`, `V` returns, whatever memory there is: the count
-- is one more, and every thread that slept on the semaphore is ready, behind the other threads of
-- its priority, in the order in which they fell asleep.
pub v-join_all :
    (room : ℕ → Bool) (sem : ℕ) (s : System) {xs : List ℕ} {ls : List (List ℕ)} (n : ℕ)
    → Listed s.threads.sleepers xs
    → Levels s.threads.sched.runqueue ls
    → ((t : ℕ) → s.threads.sched.priority t < length ls)
    → Spare (length (woken sem s.threads.sleepaddr xs) + n) s.threads.sched.runqueue ls
    → s.count + 1 < int_limit
    → sem ≢ 0
    → (s' : System) × (v room sem s ≡ ok s')
      × (s'.count ≡ s.count + 1)
      × Listed s'.threads.sleepers (others sem s.threads.sleepaddr xs)
      × Levels s'.threads.sched.runqueue
          (join_all s.threads.sched.priority (woken sem s.threads.sleepaddr xs) ls)
unfolding v
v-join_all room sem s {xs} n h l ranked sp small at =
    let some_sem : (sem == 0) ≡ false = ground arith in
    let fits : ltb (s.count + 1) int_limit ≡ true = ground arith in
    let (threads, e, h', l', _) = wakeup-join_all room sem s.threads n h l ranked sp in
    (record { threads = threads; count = s.count + 1 }, rw (some_sem, fits, e), refl, h', l')

-- `sem_destroy` panics if the semaphore is NULL or a thread sleeps on it, and otherwise returns.
pub sem_destroy-any_on :
    (sem : ℕ) (s : System) {xs : List ℕ}
    → Listed s.threads.sleepers xs
    → sem_destroy sem s ≡ assert (not (sem == 0) && not (any_on sem s.threads.sleepaddr xs))
unfolding sem_destroy
sem_destroy-any_on sem s h = elim (Bool-cases (sem == 0)) [
  | inl null ↦ rw null
  | inr at ↦ rw (at, hassleepers-any_on sem s.threads h)
]
