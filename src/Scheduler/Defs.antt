-- ===== src/Scheduler/Defs.antt =====
-- The functions of scheduler.c with PRIORITY_SCHEDULER. A thread is a number; `assert(curspl>0)` is
-- left out, the callers have turned interrupts off.
use cs325os.Base.{
  ℕ, zero, suc, ◌-◌, Bool, true, not, ◌&&◌, Option, none, some, ltb, ◌==◌, List, [], ◌∷◌,
  if◌then◌else◌, Result, ok, panic, fault, no_fuel, ◌>>=◌, ◌>>◌, assert, get_elem?, set,
}
use cs325os.Queue
use cs325os.Queue.{Queue}

abbrev pub num_priorities : ℕ
num_priorities = 4

-- The run queues, and the field `priority` of every thread.
pub record Scheduler : Type 0 where
  pub runqueue : List (Queue ℕ)
  pub priority : ℕ → ℕ

abbrev in_table : Option (Queue ℕ) → Result (Queue ℕ)
in_table none = fault
in_table (some q) = ok q

-- `runqueue[i]`
abbrev pub queue_at : List (Queue ℕ) → ℕ → Result (Queue ℕ)
queue_at qs i = in_table (get_elem? qs i)

-- `scheduler_bootstrap` with `n` queues to make.
unfoldable pub bootstrap : ℕ → (ℕ → Bool) → Result (List (Queue ℕ))
bootstrap zero room = ok []
bootstrap (suc n) room = elim (Queue.create {A = ℕ} room 32) [
  | none ↦ panic
  | some q ↦ bootstrap n room >>= λ qs. ok (q ∷ qs)
]

-- `scheduler_preallocate`, a queue at a time; the first error ends the loop.
unfoldable pub preallocate : (ℕ → Bool) → List (Queue ℕ) → ℕ → Result (ℕ × List (Queue ℕ))
preallocate room [] nthreads = ok (0, [])
preallocate room (q ∷ qs) nthreads = do
  (ret, q') ← Queue.preallocate room q nthreads
  if ret == 0
      then (preallocate room qs nthreads >>= λ (ret', qs'). ok (ret', q' ∷ qs'))
      else ok (ret, q' ∷ qs)

-- `while (!q_empty(q)) q_remhead(q);`
unfoldable pub drain : ℕ → Queue ℕ → Result (Queue ℕ)
drain zero q = no_fuel
drain (suc f) q = if Queue.is_empty q then ok q else Queue.remhead q >>= λ (_, q'). drain f q'

-- `scheduler_killall`; a queue never holds as many threads as its size.
unfoldable pub killall : List (Queue ℕ) → Result (List (Queue ℕ))
killall [] = ok []
killall (q ∷ qs) = do q' ← drain q.size q; qs' ← killall qs; ok (q' ∷ qs')

unfoldable pub destroy_all : List (Queue ℕ) → Result (Unit {0})
destroy_all [] = ok tt
destroy_all (q ∷ qs) = do Queue.destroy q; destroy_all qs

-- `scheduler_shutdown`
unfoldable pub shutdown : List (Queue ℕ) → Result (Unit {0})
shutdown qs = killall qs >>= destroy_all

unfoldable pub make_runnable : (ℕ → Bool) → Scheduler → ℕ → Result (ℕ × Scheduler)
make_runnable room s t = do
  q ← queue_at s.runqueue (s.priority t)
  (result, q') ← Queue.addtail room q t
  ok (result, record s { runqueue = set s.runqueue (s.priority t) q' })

-- `do_idle`: the conjunction of `q_empty` over the queues.
unfoldable pub all_empty : List (Queue ℕ) → Bool
all_empty [] = true
all_empty (q ∷ qs) = Queue.is_empty q && all_empty qs

-- What interrupts do while the processor idles: they make these threads runnable.
unfoldable pub wake : (ℕ → Bool) → List ℕ → Scheduler → Result Scheduler
wake room [] s = ok s
wake room (t ∷ ts) s = do
  (result, s') ← make_runnable room s t
  assert (result == 0)
  wake room ts s'

-- `do … while (do_idle)`. The argument lists what the interrupts of each `cpu_idle` wake.
unfoldable pub idle_loop : (ℕ → Bool) → List (List ℕ) → Scheduler → Result Scheduler
idle_loop room [] s = if all_empty s.runqueue then no_fuel else ok s
idle_loop room (ts ∷ rest) s =
    if all_empty s.runqueue then (wake room ts s >>= λ s'. idle_loop room rest s') else ok s

-- `for (i = NUM_PRIORITIES - 1; i > 0; i--) if (!q_empty(runqueue[i])) break;`
unfoldable pub pick : ℕ → List (Queue ℕ) → Result ℕ
pick zero qs = ok 0
pick (suc i) qs =
    queue_at qs (suc i) >>= λ q. if not (Queue.is_empty q) then ok (suc i) else pick i qs

abbrev pub update : (ℕ → ℕ) → ℕ → ℕ → ℕ → ℕ
update f t x u = if t == u then x else f u

-- The end of `scheduler`: take a thread from the queue and lower its priority.
unfoldable pub dispatch : Scheduler → Result (ℕ × Scheduler)
dispatch s = do
  i ← pick (num_priorities - 1) s.runqueue
  q ← queue_at s.runqueue i
  (t, q') ← Queue.remhead q
  ok (
    t,
    record {
      runqueue = set s.runqueue i q';
      priority =
          if ltb 0 (s.priority t) then update s.priority t (s.priority t - 1) else s.priority;
    },
  )

unfoldable pub scheduler : (ℕ → Bool) → List (List ℕ) → Scheduler → Result (ℕ × Scheduler)
scheduler room interrupts s = idle_loop room interrupts s >>= dispatch
