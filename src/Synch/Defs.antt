-- ===== src/Synch/Defs.antt =====
-- The functions of synch.c on a semaphore, with interrupts off between them as the source has it.
use cs325os.Base.{
  ℕ, ◌+◌, ◌-◌, Bool, true, false, not, ◌&&◌, Option, none, some, ltb, ◌==◌, if◌then◌else◌, Result,
  ok, panic, ◌>>=◌, ◌>>◌, assert, int_limit,
}
use cs325os.Base.Int.{ℤ, pos, negsuc}
use cs325os.Thread
use cs325os.Thread.{Threads}

-- The thread system, and the field `count` of the semaphore whose address is `sem` below.
pub record System : Type 0 where
  pub threads : Threads
  pub count : ℕ

-- `sem_create`: the count of the new semaphore, or NULL. `name_size` is what `kstrdup` asks for.
unfoldable pub sem_create : (ℕ → Bool) → ℕ → ℤ → Result (Option ℕ)
sem_create room name_size (pos initial_count) =
    ok (if room 8 && room name_size then some initial_count else none)
sem_create room name_size (negsuc n) = panic

-- What `sem_destroy` requires before it frees the semaphore. A NULL semaphore has the address 0.
unfoldable pub sem_destroy : ℕ → System → Result (Unit {0})
sem_destroy sem s = assert (not (sem == 0)) >> Thread.hassleepers sem s.threads >>= λ some_sleep.
    assert (not some_sleep)

-- `P` from one call of the scheduler to the next, by the current thread: `true` when the thread has
-- passed, `false` when it sleeps. A thread that wakes begins here again, which is the `while`. That
-- the caller is no interrupt is left out.
unfoldable pub p : (ℕ → Bool) → ℕ → System → Result (Bool × System)
p room sem s = do
  assert (not (sem == 0))
  if s.count == 0
      then (Thread.sleep room sem s.threads >>= λ threads.
          ok (false, record s { threads = threads }))
      else (assert (ltb 0 s.count) >> ok (true, record s { count = s.count - 1 }))

-- `V`. The largest `int` wraps to a negative one, which the assertion refuses.
unfoldable pub v : (ℕ → Bool) → ℕ → System → Result System
v room sem s = do
  assert (not (sem == 0))
  assert (ltb (s.count + 1) int_limit)
  threads ← Thread.wakeup room sem s.threads
  ok (record { threads = threads; count = s.count + 1 })
