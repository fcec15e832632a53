-- ===== src/Thread/Defs.antt =====
-- The functions of thread.c that put threads to sleep, wake them and stash them. A thread is a number,
-- and so is a sleep address, 0 for NULL.
use cs325os.Base.{
  ℕ, zero, suc, ◌+◌, Bool, true, false, Option, none, some, ltb, ◌==◌, if◌then◌else◌, Result, ok,
  panic, no_fuel, ◌>>=◌, ◌>>◌, assert,
}
use cs325os.Base.Int.{pos}
use cs325os.Array
use cs325os.Array.{Array}
use cs325os.Scheduler
use cs325os.Scheduler.{Scheduler, update}

-- What `mi_switch` is to do with the current thread: `threadstate_t` without S_RUN, which it
-- refuses.
pub data Threadstate : Type 0 where
  s_ready : Threadstate
  s_sleep : Threadstate
  s_zomb : Threadstate

-- The tables of thread.c and scheduler.c, and the field `t_sleepaddr` of every thread.
pub record Threads : Type 0 where
  pub sleepers : Array ℕ
  pub zombies : Array ℕ
  pub sched : Scheduler
  pub curthread : Option ℕ
  pub sleepaddr : ℕ → ℕ

-- The loop of `thread_wakeup`; after a removal it looks at the same index again.
unfoldable pub wakeup_from :
    (ℕ → Bool) → ℕ → ℕ → (ℕ → ℕ) → ℕ → Array ℕ → Scheduler → Result (Array ℕ × Scheduler)
wakeup_from room addr zero sleepaddr i sleepers sched = no_fuel
wakeup_from room addr (suc f) sleepaddr i sleepers sched =
    if ltb i (Array.getnum sleepers)
    then (Array.getguy sleepers (pos i) >>= λ t.
        if sleepaddr t == addr
        then (Array.remove sleepers (pos i) >>= λ sleepers'.
            Scheduler.make_runnable room sched t >>= λ (result, sched').
            assert (result == 0) >> wakeup_from room addr f sleepaddr i sleepers' sched')
        else wakeup_from room addr f sleepaddr (i + 1) sleepers sched)
    else ok (sleepers, sched)

-- `thread_wakeup`; a round removes a thread or passes it, so the number of sleepers is fuel enough.
unfoldable pub wakeup : (ℕ → Bool) → ℕ → Threads → Result Threads
wakeup room addr s = do
  (sleepers, sched) ←
      wakeup_from room addr (suc (Array.getnum s.sleepers)) s.sleepaddr 0 s.sleepers s.sched
  ok (record s { sleepers = sleepers; sched = sched })

-- The loop of `thread_hassleepers`, with `n` rounds left.
unfoldable pub hassleepers_from : ℕ → ℕ → ℕ → Threads → Result Bool
hassleepers_from addr zero i s = ok false
hassleepers_from addr (suc n) i s = do
  t ← Array.getguy s.sleepers (pos i)
  if s.sleepaddr t == addr then ok true else hassleepers_from addr n (i + 1) s

unfoldable pub hassleepers : ℕ → Threads → Result Bool
hassleepers addr s = hassleepers_from addr (Array.getnum s.sleepers) 0 s

abbrev pub with_sleepers : Threads → ℕ × Array ℕ → ℕ × Threads
with_sleepers s (result, a) = (result, record s { sleepers = a })

abbrev pub with_zombies : Threads → ℕ × Array ℕ → ℕ × Threads
with_zombies s (result, a) = (result, record s { zombies = a })

abbrev pub with_sched : Threads → ℕ × Scheduler → ℕ × Threads
with_sched s (result, c) = (result, record s { sched = c })

-- The list that `mi_switch` puts the thread `cur` on.
unfoldable pub put_away : (ℕ → Bool) → Threadstate → Threads → ℕ → Result (ℕ × Threads)
put_away room s_ready s cur = Scheduler.make_runnable room s.sched cur >>= λ r. ok (with_sched s r)
put_away room s_sleep s cur = Array.add room s.sleepers cur >>= λ r. ok (with_sleepers s r)
put_away room s_zomb s cur = Array.add room s.zombies cur >>= λ r. ok (with_zombies s r)

-- `mi_switch` up to its call of `scheduler`: no thread is current then. Without a current thread it
-- returns at once.
unfoldable pub stash : (ℕ → Bool) → Threadstate → Threads → Result Threads
stash room nextstate s = elim s.curthread [
  | none ↦ ok s
  | some cur ↦ do
    (result, s') ← put_away room nextstate (record s { curthread = none }) cur
    assert (result == 0)
    ok s'
]

-- `thread_sleep` up to the call of `scheduler`. Without a current thread it is an interrupt that calls,
-- which it refuses.
unfoldable pub sleep : (ℕ → Bool) → ℕ → Threads → Result Threads
sleep room addr s = elim s.curthread [
  | none ↦ panic
  | some cur ↦ stash room s_sleep (record s { sleepaddr = update s.sleepaddr cur addr })
]

-- A thread gets the processor: `scheduler` chooses it with a run queue not empty, and what is left
-- of `thread_sleep`, if it slept, clears its sleep address.
unfoldable pub resume : Threads → Result Threads
resume s = do
  (t, sched) ← Scheduler.dispatch s.sched
  ok (record s { sched = sched; curthread = some t; sleepaddr = update s.sleepaddr t 0 })
