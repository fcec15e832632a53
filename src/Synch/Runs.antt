-- ===== src/Synch/Runs.antt =====
-- kern/thread/synch.c: the runs of threads that share a semaphore. Each step is what happens with
-- interrupts off; while no thread is current, interrupts call V or wake threads.
use cs325os.Base.{ℕ, ◌+◌, ◌^◌, ◌<◌, ◌≡◌, ◌≢◌, Bool, true, false, none, List, [], ◌∷◌, ok}
use cs325os.Thread
use cs325os.Thread.{Threads, s_ready, s_zomb}
use cs325os.Synch.Defs.{System, p, v}

-- What a step does to the semaphore.
pub data Event : Type 0 where
  passed : Event
  gave : Event
  other : Event

-- The steps. No memory holds 2 ^ 29 sleepers.
pub data Step (room : ℕ → Bool) (sem : ℕ) : System → Event → System → Type 0 where
  p_passes : (s s' : System) → p room sem s ≡ ok (true, s') → Step room sem s passed s'
  p_sleeps :
      (s s' : System)
      → s.threads.sleepers.num + 1 < 2 ^ 29
      → p room sem s ≡ ok (false, s')
      → Step room sem s other s'
  v_gives : (s s' : System) → v room sem s ≡ ok s' → Step room sem s gave s'
  -- the scheduler runs, no thread is current, and another thread gets the processor
  resumes :
      (s : System) (threads : Threads)
      → s.threads.curthread ≡ none
      → Thread.resume s.threads ≡ ok threads
      → Step room sem s other (record s { threads = threads })
  -- thread_yield
  yields :
      (s : System) (threads : Threads)
      → Thread.stash room s_ready s.threads ≡ ok threads
      → Step room sem s other (record s { threads = threads })
  -- the end of thread_exit
  exits :
      (s : System) (threads : Threads)
      → Thread.stash room s_zomb s.threads ≡ ok threads
      → Step room sem s other (record s { threads = threads })
  -- sleeping and waking on another address
  sleeps :
      (s : System) (addr : ℕ) (threads : Threads)
      → addr ≢ sem
      → s.threads.sleepers.num + 1 < 2 ^ 29
      → Thread.sleep room addr s.threads ≡ ok threads
      → Step room sem s other (record s { threads = threads })
  wakes :
      (s : System) (addr : ℕ) (threads : Threads)
      → Thread.wakeup room addr s.threads ≡ ok threads
      → Step room sem s other (record s { threads = threads })

-- The runs, with the events of their steps, the last one first.
pub data Run (room : ℕ → Bool) (sem : ℕ) (s : System) : List Event → System → Type 0 where
  start : Run room sem s [] s
  next_step :
      {es : List Event} {s1 s2 : System} (e : Event)
      → Run room sem s es s1
      → Step room sem s1 e s2
      → Run room sem s (e ∷ es) s2
