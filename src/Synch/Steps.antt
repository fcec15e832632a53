-- ===== src/Synch/Steps.antt =====
-- kern/thread/synch.c: what P and V have done when they return.
use cs325os.Base.{
  ℕ, ◌+◌, ◌-◌, ◌<◌, ◌≡◌, refl, sym, ◌∙◌, subst, inl, inr, Bool, true, false, ltb, ◌==◌, Result, ok,
  panic, fault, no_fuel, ◌>>=◌, Bool-cases, arith, int_limit,
}
use cs325os.Thread
use cs325os.Thread.{Threads}
use cs325os.Synch.Defs.{System, p, v}

-- What `p` has done when it returns.
pub data Passing (room : ℕ → Bool) (sem : ℕ) (s : System) : Bool → System → Type 0 where
  took : (ltb 0 s.count ≡ true) → Passing room sem s true (record s { count = s.count - 1 })
  slept :
      (threads : Threads)
      → s.count ≡ 0
      → Thread.sleep room sem s.threads ≡ ok threads
      → Passing room sem s false (record s { threads = threads })

abbrev fell_asleep : System → Threads → Result (Bool × System)
fell_asleep s threads = ok (false, record s { threads = threads })

p_slept :
    (room : ℕ → Bool) (sem : ℕ) (s s' : System) (b : Bool) (m : Result Threads)
    → s.count ≡ 0
    → Thread.sleep room sem s.threads ≡ m
    → (m >>= fell_asleep s) ≡ ok (b, s')
    → Passing room sem s b s'
p_slept room sem s s' b (ok threads) z em e =
    let eb : false ≡ b = cc in
    let es : record s { threads = threads } ≡ s' = cc in
    subst (λ x. Passing room sem s b x) es
      (subst (λ x. Passing room sem s x (record s { threads = threads })) eb (slept threads z em))
p_slept room sem s s' b panic z em e = absurd (ground (arith, e))
p_slept room sem s s' b fault z em e = absurd (ground (arith, e))
p_slept room sem s s' b no_fuel z em e = absurd (ground (arith, e))

p_sleeping :
    (room : ℕ → Bool) (sem : ℕ) (s : System)
    → (sem == 0) ≡ false
    → (s.count == 0) ≡ true
    → p room sem s ≡ (Thread.sleep room sem s.threads >>= fell_asleep s)
unfolding p
p_sleeping room sem s at z = rw (at, z)

p_taking :
    (room : ℕ → Bool) (sem : ℕ) (s : System)
    → (sem == 0) ≡ false
    → (s.count == 0) ≡ false
    → p room sem s ≡ ok (true, record s { count = s.count - 1 })
unfolding p
p_taking room sem s at z = let more : ltb 0 s.count ≡ true = ground arith in rw (at, z, more)

p_null : (room : ℕ → Bool) (sem : ℕ) (s : System) → (sem == 0) ≡ true → p room sem s ≡ panic
unfolding p
p_null room sem s z = rw z

p_at :
    (room : ℕ → Bool) (sem : ℕ) (s s' : System) (b : Bool)
    → (sem == 0) ≡ false
    → p room sem s ≡ ok (b, s')
    → Passing room sem s b s'
p_at room sem s s' b at e = elim (Bool-cases (s.count == 0)) [
  | inl none_left ↦
      let run : p room sem s ≡ (Thread.sleep room sem s.threads >>= fell_asleep s) =
        p_sleeping room sem s at none_left in
      p_slept room sem s s' b (Thread.sleep room sem s.threads) (ground arith) refl (sym run ∙ e)
  | inr some_left ↦
      let more : ltb 0 s.count ≡ true = ground arith in
      let run : p room sem s ≡ ok (true, record s { count = s.count - 1 }) =
        p_taking room sem s at some_left in
      let eb : true ≡ b = cc in
      let es : record s { count = s.count - 1 } ≡ s' = cc in
      subst (λ x. Passing room sem s b x) es
        (subst (λ x. Passing room sem s x (record s { count = s.count - 1 })) eb (took more))
]

pub p-Passing :
    (room : ℕ → Bool) (sem : ℕ) (s s' : System) (b : Bool)
    → p room sem s ≡ ok (b, s')
    → Passing room sem s b s'
p-Passing room sem s s' b e = elim (Bool-cases (sem == 0)) [
  | inl null ↦ let stop = p_null room sem s null in absurd (ground (arith, stop, e))
  | inr at ↦ p_at room sem s s' b at e
]

-- What `v` has done when it returns.
pub record Giving (room : ℕ → Bool) (sem : ℕ) (s s' : System) : Type 0 where
  pub bound : s.count + 1 < int_limit
  pub woke : Thread.wakeup room sem s.threads ≡ ok s'.threads
  pub more : s'.count ≡ s.count + 1

v_woke :
    (room : ℕ → Bool) (sem : ℕ) (s s' : System) (m : Result Threads)
    → s.count + 1 < int_limit
    → Thread.wakeup room sem s.threads ≡ m
    → (m >>= λ threads. ok (record { threads = threads; count = s.count + 1 })) ≡ ok s'
    → Giving room sem s s'
v_woke room sem s s' (ok threads) b em e =
    let es : record { threads = threads; count = s.count + 1 } ≡ s' = cc in
    subst (λ x. Giving room sem s x) es (record { bound = b; woke = em; more = refl })
v_woke room sem s s' panic b em e = absurd (ground (arith, e))
v_woke room sem s s' fault b em e = absurd (ground (arith, e))
v_woke room sem s s' no_fuel b em e = absurd (ground (arith, e))

pub v-Giving :
    (room : ℕ → Bool) (sem : ℕ) (s s' : System) → v room sem s ≡ ok s' → Giving room sem s s'
unfolding v
v-Giving room sem s s' e = elim (Bool-cases (sem == 0)) [
  | inl null ↦ let stop : v room sem s ≡ panic = rw null in absurd (ground (arith, stop, e))
  | inr at ↦ elim (Bool-cases (ltb (s.count + 1) int_limit)) [
    | inl fits ↦
        let run : v room sem s ≡ (
            Thread.wakeup room sem s.threads >>= λ threads.
            ok (record { threads = threads; count = s.count + 1 })) =
          rw (at, fits) in
        v_woke room sem s s' (Thread.wakeup room sem s.threads) (ground arith) refl (sym run ∙ e)
    | inr full ↦ let stop : v room sem s ≡ panic = rw (at, full) in absurd (ground (arith, stop, e))
  ]
]
