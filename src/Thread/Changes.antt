-- ===== src/Thread/Changes.antt =====
-- kern/thread/thread.c: what a call that returns has changed of the sleepers.
use cs325os.Base.{
  ℕ, ◌+◌, ◌^◌, ◌<◌, ◌≡◌, refl, sym, ◌∙◌, ap, subst, inl, inr, Bool, Option-cases, Bool-cases, some,
  none, Result, ok, panic, fault, no_fuel, ◌>>=◌, ◌>>◌, assert, arith, List, [], ◌∷◌, ◌++◌, map,
  ◌==◌,
}
use cs325os.Array
use cs325os.Array.{Array}
use cs325os.Array.Room.{add-items}
use cs325os.Scheduler
use cs325os.Scheduler.{Scheduler, update}
use cs325os.Thread.Defs.{
  Threads, Threadstate, s_ready, s_zomb, with_sched, with_zombies, put_away, stash, sleep, resume,
  wakeup,
}
use cs325os.Thread.Sleepers.{Listed, woken, others, wakeup-wake}

map-snoc : (xs : List ℕ) (t : ℕ) → map some xs ++ (some t ∷ []) ≡ map some (xs ++ (t ∷ []))
map-snoc [] t = refl
map-snoc (x ∷ xs) t = ap (λ l. some x ∷ l) (map-snoc xs t)

-- A thread that `sleep` has put to sleep is the last of the sleepers.
pub sleep-Listed :
    (room : ℕ → Bool) (addr : ℕ) (s threads : Threads) {xs : List ℕ}
    → Listed s.sleepers xs
    → s.sleepers.num + 1 < 2 ^ 29
    → sleep room addr s ≡ ok threads
    → (t : ℕ) × Listed threads.sleepers (xs ++ (t ∷ []))
      × (threads.sleepaddr ≡ update s.sleepaddr t addr)
unfolding sleep stash put_away
sleep-Listed room addr s threads {xs} h small e = elim (Option-cases s.curthread) [
  | inl none_runs ↦
      let stop : sleep room addr s ≡ panic = rw none_runs in absurd (ground (arith, stop, e))
  | inr (t, runs) ↦ elim (add-items room t h.valid small) [
    | inl (a', ea, v', i) ↦
        let asleep : sleep room addr s
            ≡ ok (record s {
              sleepers = a';
              curthread = none;
              sleepaddr = update s.sleepaddr t addr;
            }) =
          rw (runs, ea) in
        let same : record s {
          sleepers = a';
          curthread = none;
          sleepaddr = update s.sleepaddr t addr;
        }
            ≡ threads =
          cc in
        (
          t,
          subst (λ x. Listed x.sleepers (xs ++ (t ∷ []))) same
              (record { valid = v'; items_eq = rw (i, h.items_eq) (map-snoc xs t) }),
          subst (λ x. x.sleepaddr ≡ update s.sleepaddr t addr) same refl,
        )
    | inr (n, out, ea) ↦
        let stop : sleep room addr s ≡ panic = rw (runs, ea) in absurd (ground (arith, stop, e))
  ]
]

finish_wakeup :
    (m : Result Scheduler) (a' : Array ℕ) (s threads : Threads)
    → (m >>= λ c. ok (record s { sleepers = a'; sched = c })) ≡ ok threads
    → (threads.sleepers ≡ a') × (threads.sleepaddr ≡ s.sleepaddr)
finish_wakeup (ok c) a' s threads e =
    let same : record s { sleepers = a'; sched = c } ≡ threads = cc in
    (subst (λ x. x.sleepers ≡ a') same refl, subst (λ x. x.sleepaddr ≡ s.sleepaddr) same refl)
finish_wakeup panic a' s threads e = absurd (ground (arith, e))
finish_wakeup fault a' s threads e = absurd (ground (arith, e))
finish_wakeup no_fuel a' s threads e = absurd (ground (arith, e))

-- After `wakeup` the sleepers are those on other addresses.
pub wakeup-Listed :
    (room : ℕ → Bool) (addr : ℕ) (s threads : Threads) {xs : List ℕ}
    → Listed s.sleepers xs
    → wakeup room addr s ≡ ok threads
    → Listed threads.sleepers (others addr s.sleepaddr xs) × (threads.sleepaddr ≡ s.sleepaddr)
wakeup-Listed room addr s threads {xs} h e =
    let (a', h', ew) = wakeup-wake room addr s h in
    let (same, kept) =
      finish_wakeup (Scheduler.wake room (woken addr s.sleepaddr xs) s.sched) a' s threads
        (sym ew ∙ e) in
    (subst (λ a. Listed a (others addr s.sleepaddr xs)) (sym same) h', kept)

-- `threads` has the sleepers of `s`.
abbrev pub SameSleepers : Threads → Threads → Type 0
SameSleepers s threads = (threads.sleepers ≡ s.sleepers) × (threads.sleepaddr ≡ s.sleepaddr)

checked :
    (r : ℕ) (s s' threads : Threads)
    → SameSleepers s s'
    → (assert (r == 0) >> ok s') ≡ ok threads
    → SameSleepers s threads
checked r s s' threads same e = elim (Bool-cases (r == 0)) [
  | inl z ↦
      let done : s' ≡ threads = ground (arith, e, z) in subst (λ x. SameSleepers s x) done same
  | inr nz ↦ absurd (ground (arith, e, nz))
]

stash_ready :
    (s threads : Threads) (m : Result (ℕ × Scheduler))
    → ((m >>= λ r. ok (with_sched (record s { curthread = none }) r)) >>= λ (result, s').
        assert (result == 0) >> ok s')
      ≡ ok threads
    → SameSleepers s threads
stash_ready s threads (ok (r, c)) e =
    checked r s (record s { curthread = none; sched = c }) threads (refl, refl) e
stash_ready s threads panic e = absurd (ground (arith, e))
stash_ready s threads fault e = absurd (ground (arith, e))
stash_ready s threads no_fuel e = absurd (ground (arith, e))

stash_zomb :
    (s threads : Threads) (m : Result (ℕ × Array ℕ))
    → ((m >>= λ r. ok (with_zombies (record s { curthread = none }) r)) >>= λ (result, s').
        assert (result == 0) >> ok s')
      ≡ ok threads
    → SameSleepers s threads
stash_zomb s threads (ok (r, a)) e =
    checked r s (record s { curthread = none; zombies = a }) threads (refl, refl) e
stash_zomb s threads panic e = absurd (ground (arith, e))
stash_zomb s threads fault e = absurd (ground (arith, e))
stash_zomb s threads no_fuel e = absurd (ground (arith, e))

stash-none :
    (room : ℕ → Bool) (nextstate : Threadstate) (s threads : Threads)
    → s.curthread ≡ none
    → stash room nextstate s ≡ ok threads
    → SameSleepers s threads
unfolding stash
stash-none room nextstate s threads idle e =
    let stay : stash room nextstate s ≡ ok s = rw idle in
    let same : s ≡ threads = cc in subst (λ x. SameSleepers s x) same (refl, refl)

stash-some :
    (room : ℕ → Bool) (nextstate : Threadstate) (s : Threads) (t : ℕ)
    → s.curthread ≡ some t
    → stash room nextstate s ≡ (
        put_away room nextstate (record s { curthread = none }) t >>= λ (result, s').
        assert (result == 0) >> ok s')
unfolding stash
stash-some room nextstate s t runs = rw runs

-- To stash a thread that stays ready changes nothing of the sleepers.
pub stash-ready :
    (room : ℕ → Bool) (s threads : Threads)
    → stash room s_ready s ≡ ok threads
    → SameSleepers s threads
unfolding put_away
stash-ready room s threads e = elim (Option-cases s.curthread) [
  | inl idle ↦ stash-none room s_ready s threads idle e
  | inr (t, runs) ↦
      stash_ready s threads (Scheduler.make_runnable room s.sched t)
        (sym (stash-some room s_ready s t runs) ∙ e)
]

-- Nor does to stash a dead one.
pub stash-zomb :
    (room : ℕ → Bool) (s threads : Threads)
    → stash room s_zomb s ≡ ok threads
    → SameSleepers s threads
unfolding put_away
stash-zomb room s threads e = elim (Option-cases s.curthread) [
  | inl idle ↦ stash-none room s_zomb s threads idle e
  | inr (t, runs) ↦
      stash_zomb s threads (Array.add room s.zombies t) (sym (stash-some room s_zomb s t runs) ∙ e)
]

pub resume-sleepers :
    (s threads : Threads)
    → resume s ≡ ok threads
    → (t : ℕ) × (threads.sleepers ≡ s.sleepers) × (threads.sleepaddr ≡ update s.sleepaddr t 0)
unfolding resume
resume-sleepers s threads e = go (Scheduler.dispatch s.sched) e
  where
    go :
        (m : Result (ℕ × Scheduler))
        → (m >>= λ (t, sched).
            ok (record s { sched = sched; curthread = some t; sleepaddr = update s.sleepaddr t 0 }))
          ≡ ok threads
        → (t : ℕ) × (threads.sleepers ≡ s.sleepers) × (threads.sleepaddr ≡ update s.sleepaddr t 0)
    go (ok (t, sched)) e =
        let same : record s {
          sched = sched;
          curthread = some t;
          sleepaddr = update s.sleepaddr t 0;
        }
            ≡ threads =
          cc in
        (
          t,
          subst (λ x. x.sleepers ≡ s.sleepers) same refl,
          subst (λ x. x.sleepaddr ≡ update s.sleepaddr t 0) same refl,
        )
    go panic e = absurd (ground (arith, e))
    go fault e = absurd (ground (arith, e))
    go no_fuel e = absurd (ground (arith, e))
