-- ===== src/Synch/Safety.antt =====
-- kern/thread/synch.c: what holds in every run of threads that share a semaphore.
use cs325os.Base.{
  ℕ, ◌+◌, ◌-◌, ◌^◌, ◌<◌, ◌≡◌, ◌≢◌, refl, sym, subst, inl, inr, Bool, true, false, ◌&&◌, ltb, ◌==◌,
  ok, Bool-cases, arith, List, [], ◌∷◌, ◌++◌,
}
use cs325os.Thread
use cs325os.Thread.{Threads}
use cs325os.Scheduler.{update}
use cs325os.Thread.Sleepers.{Listed, any_on, others, any_on-others}
use cs325os.Thread.Changes.{sleep-Listed, wakeup-Listed, stash-ready, stash-zomb, resume-sleepers}
use cs325os.Synch.Defs.{System}
use cs325os.Synch.Steps.{Passing, took, slept, p-Passing, Giving, v-Giving}
use cs325os.Synch.Runs.{
  Event, Step, p_passes, p_sleeps, v_gives, resumes, yields, exits, sleeps, wakes, Run, start,
  next_step,
}

-- While the semaphore has a count, no thread sleeps on it.
pub record NoneLost (sem : ℕ) (s : System) : Type 0 where
  pub sleeping : List ℕ
  pub listed : Listed s.threads.sleepers sleeping
  pub awake : (ltb 0 s.count && any_on sem s.threads.sleepaddr sleeping) ≡ false

any_on-update :
    (sem addr t : ℕ) (f : ℕ → ℕ) (xs : List ℕ)
    → addr ≢ sem
    → any_on sem f xs ≡ false
    → any_on sem (update f t addr) xs ≡ false
any_on-update sem addr t f [] ne h = refl
any_on-update sem addr t f (x ∷ xs) ne h =
    let here : (update f t addr x == sem) ≡ false = ground (arith, h) in
    let rest : any_on sem f xs ≡ false = ground (arith, h) in
    rw (here, any_on-update sem addr t f xs ne rest)

any_on-snoc :
    (sem t : ℕ) (f : ℕ → ℕ) (xs : List ℕ)
    → any_on sem f xs ≡ false
    → f t ≢ sem
    → any_on sem f (xs ++ (t ∷ [])) ≡ false
any_on-snoc sem t f [] h ne = ground arith
any_on-snoc sem t f (x ∷ xs) h ne =
    let here : (f x == sem) ≡ false = ground (arith, h) in
    let rest : any_on sem f xs ≡ false = ground (arith, h) in
    rw (here, any_on-snoc sem t f xs rest ne)

any_on-others_of :
    (sem addr : ℕ) (f : ℕ → ℕ) (xs : List ℕ)
    → any_on sem f xs ≡ false
    → any_on sem f (others addr f xs) ≡ false
any_on-others_of sem addr f [] h = refl
any_on-others_of sem addr f (x ∷ xs) h =
    let here : (f x == sem) ≡ false = ground (arith, h) in
    let rest : any_on sem f xs ≡ false = ground (arith, h) in
    elim (Bool-cases (f x == addr)) [
      | inl hit ↦ rw hit (any_on-others_of sem addr f xs rest)
      | inr miss ↦ rw (miss, here) (any_on-others_of sem addr f xs rest)
    ]

awake_after :
    (sem c : ℕ) (f : ℕ → ℕ) (xs : List ℕ)
    → any_on sem f xs ≡ false
    → (ltb 0 c && any_on sem f xs) ≡ false
awake_after sem c f xs h = elim (Bool-cases (ltb 0 c)) [ inl y ↦ rw (y, h) | inr n ↦ rw n ]

took-NoneLost :
    {room : ℕ → Bool} {sem : ℕ} {s s' : System}
    → NoneLost sem s
    → Passing room sem s true s'
    → NoneLost sem s'
took-NoneLost {room} {sem} {s} h (took more) =
    let quiet : any_on sem s.threads.sleepaddr h.sleeping ≡ false = ground (arith, h.awake, more) in
    record {
      sleeping = h.sleeping;
      listed = h.listed;
      awake = awake_after sem (s.count - 1) s.threads.sleepaddr h.sleeping quiet;
    }

slept-NoneLost :
    {room : ℕ → Bool} {sem : ℕ} {s s' : System}
    → NoneLost sem s
    → s.threads.sleepers.num + 1 < 2 ^ 29
    → Passing room sem s false s'
    → NoneLost sem s'
slept-NoneLost {room} {sem} {s} h small (slept threads z e) =
    let (t, l, _) = sleep-Listed room sem s.threads threads h.listed small e in
    let zero_left : ltb 0 s.count ≡ false = ground arith in
    record { sleeping = h.sleeping ++ (t ∷ []); listed = l; awake = rw zero_left }

Giving-NoneLost :
    {room : ℕ → Bool} {sem : ℕ} {s s' : System}
    → NoneLost sem s
    → Giving room sem s s'
    → NoneLost sem s'
Giving-NoneLost {room} {sem} {s} {s'} h g =
    let (l, same) = wakeup-Listed room sem s.threads s'.threads h.listed g.woke in
    let f = s.threads.sleepaddr in
    record {
      sleeping = others sem f h.sleeping;
      listed = l;
      awake =
          rw same
            (awake_after sem s'.count f (others sem f h.sleeping) (any_on-others sem f h.sleeping));
    }

-- A change of the threads alone, after which none sleeps on the semaphore if none did before.
threads-NoneLost :
    {sem : ℕ} {s : System} (h : NoneLost sem s) (threads : Threads) (xs : List ℕ)
    → Listed threads.sleepers xs
    → (any_on sem s.threads.sleepaddr h.sleeping ≡ false → any_on sem threads.sleepaddr xs ≡ false)
    → NoneLost sem (record s { threads = threads })
threads-NoneLost {sem} {s} h threads xs l quiet = record {
  sleeping = xs;
  listed = l;
  awake = elim (Bool-cases (ltb 0 s.count)) [
    | inl some_left ↦ rw (some_left, quiet (ground (arith, h.awake, some_left)))
    | inr none_left ↦ rw none_left
  ];
}

same-NoneLost :
    {sem : ℕ} {s : System} (h : NoneLost sem s) (threads : Threads)
    → (threads.sleepers ≡ s.threads.sleepers) × (threads.sleepaddr ≡ s.threads.sleepaddr)
    → NoneLost sem (record s { threads = threads })
same-NoneLost {sem} {s} h threads (a, f) =
    threads-NoneLost h threads h.sleeping (subst (λ x. Listed x h.sleeping) (sym a) h.listed)
      (λ q. rw f q)

resumed-NoneLost :
    {sem : ℕ} {s : System} (h : NoneLost sem s) (threads : Threads)
    → sem ≢ 0
    → Thread.resume s.threads ≡ ok threads
    → NoneLost sem (record s { threads = threads })
resumed-NoneLost {sem} {s} h threads ne e =
    let (t, a, f) = resume-sleepers s.threads threads e in
    threads-NoneLost h threads h.sleeping (subst (λ x. Listed x h.sleeping) (sym a) h.listed)
      (λ q. rw f (any_on-update sem 0 t s.threads.sleepaddr h.sleeping (λ z. ne (sym z)) q))

sleeps-NoneLost :
    (room : ℕ → Bool) {sem : ℕ} {s : System} (h : NoneLost sem s) (addr : ℕ) (threads : Threads)
    → addr ≢ sem
    → s.threads.sleepers.num + 1 < 2 ^ 29
    → Thread.sleep room addr s.threads ≡ ok threads
    → NoneLost sem (record s { threads = threads })
sleeps-NoneLost room {sem} {s} h addr threads ne small e =
    let (t, l, f) = sleep-Listed room addr s.threads threads h.listed small e in
    let g = update s.threads.sleepaddr t addr in
    let own : g t ≢ sem = ground arith in
    threads-NoneLost h threads (h.sleeping ++ (t ∷ [])) l (λ q. rw f (
      any_on-snoc sem t g h.sleeping (any_on-update sem addr t s.threads.sleepaddr h.sleeping ne q)
        own))

wakes-NoneLost :
    (room : ℕ → Bool) {sem : ℕ} {s : System} (h : NoneLost sem s) (addr : ℕ) (threads : Threads)
    → Thread.wakeup room addr s.threads ≡ ok threads
    → NoneLost sem (record s { threads = threads })
wakes-NoneLost room {sem} {s} h addr threads e =
    let (l, f) = wakeup-Listed room addr s.threads threads h.listed e in
    threads-NoneLost h threads (others addr s.threads.sleepaddr h.sleeping) l
      (λ q. rw f (any_on-others_of sem addr s.threads.sleepaddr h.sleeping q))

-- Every step keeps the semaphore free of lost wakeups.
pub Step-NoneLost :
    {room : ℕ → Bool} {sem : ℕ} {s s' : System} {e : Event}
    → sem ≢ 0
    → NoneLost sem s
    → Step room sem s e s'
    → NoneLost sem s'
Step-NoneLost {room} {sem} ne h (p_passes s s' e) = took-NoneLost h (p-Passing room sem s s' true e)
Step-NoneLost {room} {sem} ne h (p_sleeps s s' small e) =
    slept-NoneLost h small (p-Passing room sem s s' false e)
Step-NoneLost {room} {sem} ne h (v_gives s s' e) = Giving-NoneLost h (v-Giving room sem s s' e)
Step-NoneLost ne h (resumes s threads idle e) = resumed-NoneLost h threads ne e
Step-NoneLost {room} ne h (yields s threads e) =
    same-NoneLost h threads (stash-ready room s.threads threads e)
Step-NoneLost {room} ne h (exits s threads e) =
    same-NoneLost h threads (stash-zomb room s.threads threads e)
Step-NoneLost {room} ne h (sleeps s addr threads na small e) =
    sleeps-NoneLost room h addr threads na small e
Step-NoneLost {room} ne h (wakes s addr threads e) = wakes-NoneLost room h addr threads e

-- If the semaphore is not at NULL and no thread sleeps on it while it has a count at the start,
-- then in every run no thread sleeps on it while it has a count: no wakeup is lost.
pub Run-NoneLost :
    {room : ℕ → Bool} {sem : ℕ} {s s' : System} {es : List Event}
    → sem ≢ 0
    → NoneLost sem s
    → Run room sem s es s'
    → NoneLost sem s'
Run-NoneLost ne h start = h
Run-NoneLost ne h (next_step e r step) = Step-NoneLost ne (Run-NoneLost ne h r) step
