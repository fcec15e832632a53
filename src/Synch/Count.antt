-- ===== src/Synch/Count.antt =====
-- kern/thread/synch.c: the count of a semaphore in a run.
use cs325os.Base.{ℕ, ◌+◌, ◌≡◌, refl, Bool, true, false, List, [], ◌∷◌, arith}
use cs325os.Synch.Defs.{System}
use cs325os.Synch.Steps.{Passing, took, slept, p-Passing, v-Giving}
use cs325os.Synch.Runs.{
  Event, passed, gave, other, Step, p_passes, p_sleeps, v_gives, resumes, yields, exits, sleeps,
  wakes, Run, start, next_step,
}

-- How often a thread has passed.
abbrev pub passes : List Event → ℕ
passes [] = 0
passes (passed ∷ es) = passes es + 1
passes (gave ∷ es) = passes es
passes (other ∷ es) = passes es

-- How often V has been called.
abbrev pub gifts : List Event → ℕ
gifts [] = 0
gifts (passed ∷ es) = gifts es
gifts (gave ∷ es) = gifts es + 1
gifts (other ∷ es) = gifts es

took-count :
    {room : ℕ → Bool} {sem : ℕ} {s s' : System}
    → Passing room sem s true s'
    → s'.count + 1 ≡ s.count
took-count (took more) = ground arith

slept-count :
    {room : ℕ → Bool} {sem : ℕ} {s s' : System} → Passing room sem s false s' → s'.count ≡ s.count
slept-count (slept threads z e) = refl

Step-count :
    {room : ℕ → Bool} {sem : ℕ} {s s' : System} {e : Event} (es : List Event) (c : ℕ)
    → s.count + passes es ≡ c + gifts es
    → Step room sem s e s'
    → s'.count + passes (e ∷ es) ≡ c + gifts (e ∷ es)
Step-count {room} {sem} es c h (p_passes s s' e) =
    omega (arith, h, took-count (p-Passing room sem s s' true e))
Step-count {room} {sem} es c h (p_sleeps s s' small e) =
    omega (arith, h, slept-count (p-Passing room sem s s' false e))
Step-count {room} {sem} es c h (v_gives s s' e) =
    let g = v-Giving room sem s s' e in omega (arith, h, g.more)
Step-count es c h (resumes s threads idle e) = h
Step-count es c h (yields s threads e) = h
Step-count es c h (exits s threads e) = h
Step-count es c h (sleeps s addr threads na small e) = h
Step-count es c h (wakes s addr threads e) = h

-- In every run the count and the threads that have passed make up the count at the start and the
-- calls of V: no token is lost, and none is taken twice.
pub Run-count :
    {room : ℕ → Bool} {sem : ℕ} {s s' : System} {es : List Event}
    → Run room sem s es s'
    → s'.count + passes es ≡ s.count + gifts es
Run-count start = refl
Run-count {s = s} (next_step {es} e r step) = Step-count es s.count (Run-count r) step
