-- ===== src/Thread/Sleepers.antt =====
-- kern/thread/thread.c: the list of sleeping threads, and what `thread_wakeup` takes out of it.
use cs325os.Base.{
  ℕ, zero, suc, ◌+◌, ◌<◌, ◌≡◌, refl, ap, sym, subst, inl, inr, Bool, true, false, ◌||◌, Result, ok,
  panic, fault, no_fuel, ◌>>=◌, ◌>>◌, assert, some, ltb, Bool-cases, arith, List, [], ◌∷◌, ◌++◌,
  map, length, get_elem?, erase_at, length-map, length-append, ◌==◌, if◌then◌else◌,
}
use cs325os.Base.Int.{pos}
use cs325os.Array
use cs325os.Array.{Array}
use cs325os.Array.Items.{IsValid, items, length-items}
use cs325os.Array.Access.{getguy-item_at, remove-erase_at}
use cs325os.Scheduler
use cs325os.Scheduler.{Scheduler}
use cs325os.Thread.Defs.{Threads, wakeup_from, wakeup, hassleepers_from, hassleepers}

-- The array `a` holds the threads `xs`.
pub record Listed (a : Array ℕ) (xs : List ℕ) : Type 0 where
  pub valid : IsValid a
  pub items_eq : items a ≡ map some xs

-- The threads of `xs` that sleep on `addr`, in order.
abbrev pub woken : ℕ → (ℕ → ℕ) → List ℕ → List ℕ
woken addr sleepaddr [] = []
woken addr sleepaddr (t ∷ ts) =
    if sleepaddr t == addr then t ∷ woken addr sleepaddr ts else woken addr sleepaddr ts

-- The threads of `xs` that do not.
abbrev pub others : ℕ → (ℕ → ℕ) → List ℕ → List ℕ
others addr sleepaddr [] = []
others addr sleepaddr (t ∷ ts) =
    if sleepaddr t == addr then others addr sleepaddr ts else t ∷ others addr sleepaddr ts

-- Some thread of `xs` sleeps on `addr`.
abbrev pub any_on : ℕ → (ℕ → ℕ) → List ℕ → Bool
any_on addr sleepaddr [] = false
any_on addr sleepaddr (t ∷ ts) = (sleepaddr t == addr) || any_on addr sleepaddr ts

pub num-Listed : {a : Array ℕ} {xs : List ℕ} → Listed a xs → a.num ≡ length xs
num-Listed {a} {xs} h =
    omega (arith, length-items h.valid, ap length h.items_eq, length-map some xs)

middle :
    (kept : List ℕ) (t : ℕ) (ts : List ℕ)
    → get_elem? (map some (kept ++ (t ∷ ts))) (length kept) ≡ some (some t)
middle [] t ts = refl
middle (x ∷ kept) t ts = middle kept t ts

erase-middle :
    (kept : List ℕ) (t : ℕ) (ts : List ℕ)
    → erase_at (length kept) (map some (kept ++ (t ∷ ts))) ≡ map some (kept ++ ts)
erase-middle [] t ts = refl
erase-middle (x ∷ kept) t ts = ap (λ l. some x ∷ l) (erase-middle kept t ts)

snoc-append : (kept : List ℕ) (t : ℕ) (ts : List ℕ) → (kept ++ (t ∷ [])) ++ ts ≡ kept ++ (t ∷ ts)
snoc-append [] t ts = refl
snoc-append (x ∷ kept) t ts = ap (λ l. x ∷ l) (snoc-append kept t ts)

getguy-middle :
    {a : Array ℕ} (kept : List ℕ) (t : ℕ) (ts : List ℕ)
    → Listed a (kept ++ (t ∷ ts))
    → Array.getguy a (pos (length kept)) ≡ ok t
getguy-middle {a} kept t ts h =
    rw (getguy-item_at (pos (length kept)) h.valid, h.items_eq, middle kept t ts)

remove-middle :
    {a : Array ℕ} (kept : List ℕ) (t : ℕ) (ts : List ℕ)
    → Listed a (kept ++ (t ∷ ts))
    → (a' : Array ℕ) × (Array.remove a (pos (length kept)) ≡ ok a') × Listed a' (kept ++ ts)
remove-middle {a} kept t ts h =
    let lt : length kept < a.num = omega (arith, num-Listed h, length-append kept (t ∷ ts)) in
    let (a', e, v, i) = remove-erase_at (length kept) h.valid lt in
    (a', e, record { valid = v; items_eq = rw (i, h.items_eq, erase-middle kept t ts) })

-- The rest of a round of the loop, against the same round of `wake`.
then_rest :
    {X : Type 0} (r : ℕ) (k : Result Scheduler) (rest : Result X) (f : Scheduler → Result X)
    → rest ≡ (k >>= f)
    → (assert (r == 0) >> rest) ≡ ((assert (r == 0) >> k) >>= f)
then_rest r k rest f e = elim (Bool-cases (r == 0)) [ inl z ↦ rw (z, e) | inr nz ↦ rw nz ]

then_round :
    {X : Type 0} (m : Result (ℕ × Scheduler)) (k : Scheduler → Result Scheduler)
    (rest : Scheduler → Result X) (f : Scheduler → Result X)
    → ((c : Scheduler) → rest c ≡ (k c >>= f))
    → (m >>= λ (r, c). assert (r == 0) >> rest c) ≡ ((m >>= λ (r, c). assert (r == 0) >> k c) >>= f)
then_round (ok (r, c)) k rest f e = then_rest r (k c) (rest c) f (e c)
then_round panic k rest f e = refl
then_round fault k rest f e = refl
then_round no_fuel k rest f e = refl

wakeup_from_lem :
    (room : ℕ → Bool) (addr : ℕ) (sleepaddr : ℕ → ℕ) (f : ℕ) {a : Array ℕ} (kept ts : List ℕ)
    → Listed a (kept ++ ts)
    → length ts < f
    → (a' : Array ℕ) × Listed a' (kept ++ others addr sleepaddr ts)
      × ((c : Scheduler)
          → wakeup_from room addr f sleepaddr (length kept) a c
            ≡ (Scheduler.wake room (woken addr sleepaddr ts) c >>= λ c'. ok (a', c')))
unfolding wakeup_from Scheduler.wake Array.getnum
wakeup_from_lem room addr sleepaddr zero kept ts h lt = absurd (omega arith)
wakeup_from_lem room addr sleepaddr (suc f) {a} kept [] h lt =
    let e : ltb (length kept) a.num ≡ false =
      ground (arith, num-Listed h, length-append {A = ℕ} kept []) in
    (a, h, λ c. rw e)
wakeup_from_lem room addr sleepaddr (suc f) {a} kept (t ∷ ts) h lt =
    let e : ltb (length kept) a.num ≡ true =
      ground (arith, num-Listed h, length-append kept (t ∷ ts)) in
    let g = getguy-middle kept t ts h in
    elim (Bool-cases (sleepaddr t == addr)) [
      | inl hit ↦
          let (a1, e1, h1) = remove-middle kept t ts h in
          let (a', h', all) = wakeup_from_lem room addr sleepaddr f kept ts h1 (omega arith) in
          (
            a',
            rw hit h',
            λ c.
                rw (e, g, hit, e1)
                  (then_round (Scheduler.make_runnable room c t)
                    (Scheduler.wake room (woken addr sleepaddr ts))
                    (wakeup_from room addr f sleepaddr (length kept) a1) (λ c'. ok (a', c')) all),
          )
      | inr miss ↦
          let on : Listed a ((kept ++ (t ∷ [])) ++ ts) =
            subst (λ l. Listed a l) (sym (snoc-append kept t ts)) h in
          let (a', h', all) =
            wakeup_from_lem room addr sleepaddr f (kept ++ (t ∷ [])) ts on (omega arith) in
          let next : length (kept ++ (t ∷ [])) ≡ length kept + 1 =
            omega (arith, length-append kept (t ∷ [])) in
          (
            a',
            rw miss (subst (λ l. Listed a' l) (snoc-append kept t (others addr sleepaddr ts)) h'),
            λ c. rw (e, g, miss) (rw (sym next) (all c)),
          )
    ]

-- `thread_wakeup` takes every thread that sleeps on the address out of the list of sleepers, keeps
-- the others in order, and makes those that it takes runnable, the one longest asleep first; it
-- returns unless that fails.
pub wakeup-wake :
    (room : ℕ → Bool) (addr : ℕ) (s : Threads) {xs : List ℕ}
    → Listed s.sleepers xs
    → (a' : Array ℕ) × Listed a' (others addr s.sleepaddr xs)
      × (wakeup room addr s ≡ (
          Scheduler.wake room (woken addr s.sleepaddr xs) s.sched >>= λ c.
          ok (record s { sleepers = a'; sched = c })))
unfolding wakeup Array.getnum
wakeup-wake room addr s {xs} h =
    let lt : length xs < suc s.sleepers.num = omega (arith, num-Listed h) in
    let (a', h', all) = wakeup_from_lem room addr s.sleepaddr (suc s.sleepers.num) [] xs h lt in
    (
      a',
      h',
      rw (all s.sched) (finish (Scheduler.wake room (woken addr s.sleepaddr xs) s.sched) a' s),
    )
  where
    finish :
        (m : Result Scheduler) (a' : Array ℕ) (s : Threads)
        → ((m >>= λ c'. ok (a', c')) >>= λ (a, c). ok (record s { sleepers = a; sched = c }))
          ≡ (m >>= λ c. ok (record s { sleepers = a'; sched = c }))
    finish (ok c) a' s = refl
    finish panic a' s = refl
    finish fault a' s = refl
    finish no_fuel a' s = refl

hassleepers_from_lem :
    (addr : ℕ) (s : Threads) (kept ts : List ℕ)
    → Listed s.sleepers (kept ++ ts)
    → hassleepers_from addr (length ts) (length kept) s ≡ ok (any_on addr s.sleepaddr ts)
unfolding hassleepers_from
hassleepers_from_lem addr s kept [] h = refl
hassleepers_from_lem addr s kept (t ∷ ts) h =
    let g = getguy-middle kept t ts h in
    elim (Bool-cases (s.sleepaddr t == addr)) [
      | inl hit ↦ rw (g, hit)
      | inr miss ↦
          let on = subst (λ l. Listed s.sleepers l) (sym (snoc-append kept t ts)) h in
          let next : length (kept ++ (t ∷ [])) ≡ length kept + 1 =
            omega (arith, length-append kept (t ∷ [])) in
          rw (g, miss, sym next) (hassleepers_from_lem addr s (kept ++ (t ∷ [])) ts on)
    ]

-- `thread_hassleepers` tells whether some thread sleeps on the address.
pub hassleepers-any_on :
    (addr : ℕ) (s : Threads) {xs : List ℕ}
    → Listed s.sleepers xs
    → hassleepers addr s ≡ ok (any_on addr s.sleepaddr xs)
unfolding hassleepers Array.getnum
hassleepers-any_on addr s {xs} h =
    subst (λ n. hassleepers_from addr n 0 s ≡ ok (any_on addr s.sleepaddr xs)) (sym (num-Listed h))
      (hassleepers_from_lem addr s [] xs h)

-- None that `thread_wakeup` leaves sleeps on the address.
pub any_on-others : (addr : ℕ) (f : ℕ → ℕ) (xs : List ℕ) → any_on addr f (others addr f xs) ≡ false
any_on-others addr f [] = refl
any_on-others addr f (t ∷ ts) = elim (Bool-cases (f t == addr)) [
  | inl hit ↦ rw hit (any_on-others addr f ts)
  | inr miss ↦ rw (miss, miss) (any_on-others addr f ts)
]
