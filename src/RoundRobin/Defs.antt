-- ===== src/RoundRobin/Defs.antt =====
-- The functions of scheduler.c for the round-robin scheduler. A thread is a number; `assert(curspl>0)`
-- is left out, the callers have turned interrupts off.
use cs325os.Base.{
  ℕ, zero, suc, Bool, none, some, ◌==◌, List, [], ◌∷◌, if◌then◌else◌, Result, ok, panic, no_fuel,
  ◌>>=◌, ◌>>◌, assert,
}
use cs325os.Queue
use cs325os.Queue.{Queue}

unfoldable pub bootstrap : (ℕ → Bool) → Result (Queue ℕ)
bootstrap room = elim (Queue.create {A = ℕ} room 32) [ none ↦ panic | some runqueue ↦ ok runqueue ]

unfoldable pub preallocate : (ℕ → Bool) → Queue ℕ → ℕ → Result (ℕ × Queue ℕ)
preallocate room runqueue nthreads = Queue.preallocate room runqueue nthreads

-- The loop of `scheduler_killall`.
unfoldable pub drain : ℕ → Queue ℕ → Result (Queue ℕ)
drain zero runqueue = no_fuel
drain (suc f) runqueue =
    if Queue.is_empty runqueue
    then ok runqueue
    else Queue.remhead runqueue >>= λ (_, runqueue'). drain f runqueue'

-- A queue never holds as many threads as its size.
unfoldable pub killall : Queue ℕ → Result (Queue ℕ)
killall runqueue = drain runqueue.size runqueue

unfoldable pub shutdown : Queue ℕ → Result (Unit {0})
shutdown runqueue = killall runqueue >>= λ runqueue'. Queue.destroy runqueue'

unfoldable pub make_runnable : (ℕ → Bool) → Queue ℕ → ℕ → Result (ℕ × Queue ℕ)
make_runnable room runqueue t = Queue.addtail room runqueue t

-- What interrupts do while the processor idles: they make these threads runnable.
unfoldable pub wake : (ℕ → Bool) → List ℕ → Queue ℕ → Result (Queue ℕ)
wake room [] runqueue = ok runqueue
wake room (t ∷ ts) runqueue = do
  (result, runqueue') ← make_runnable room runqueue t
  assert (result == 0)
  wake room ts runqueue'

-- `while (q_empty(runqueue)) cpu_idle();`. The argument lists what the interrupts of each `cpu_idle` wake.
unfoldable pub idle_loop : (ℕ → Bool) → List (List ℕ) → Queue ℕ → Result (Queue ℕ)
idle_loop room [] runqueue = if Queue.is_empty runqueue then no_fuel else ok runqueue
idle_loop room (ts ∷ rest) runqueue =
    if Queue.is_empty runqueue
    then (wake room ts runqueue >>= λ runqueue'. idle_loop room rest runqueue')
    else ok runqueue

unfoldable pub scheduler : (ℕ → Bool) → List (List ℕ) → Queue ℕ → Result (ℕ × Queue ℕ)
scheduler room interrupts runqueue =
    idle_loop room interrupts runqueue >>= λ runqueue'. Queue.remhead runqueue'
