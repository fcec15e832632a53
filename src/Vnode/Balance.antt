-- ===== src/Vnode/Balance.antt =====
-- kern/fs/vfs/vnode.c: sequences of calls on one vnode.
use cs325os.Base.{
  ℕ, suc, ◌+◌, ◌-◌, ◌≤◌, ◌<◌, ◌≡◌, refl, ap, ap₂, ◌∙◌, Bool, true, false, ltb, if◌then◌else◌, List,
  [], ◌∷◌, ◌++◌, Result, ok, ◌>>=◌, arith, int_limit, inl, inr, Bool-cases, take,
}
use cs325os.Vnode.Defs.{Vnode, incref, decref, incopen, decopen}

-- A call of VOP_INCREF, VOP_DECREF, VOP_INCOPEN or VOP_DECOPEN.
pub data Call : Type 0 where
  takes : Call
  drops : Call
  opens : Call
  closes : Call

-- One call; the Boolean tells whether the file system is called to reclaim the vnode.
abbrev pub step : (Vnode → Vnode) → (Vnode → Vnode) → Call → Vnode → Result (Bool × Vnode)
step reclaim close takes vn = incref vn >>= λ vn'. ok (false, vn')
step reclaim close drops vn = decref reclaim vn
step reclaim close opens vn = incopen vn >>= λ vn'. ok (false, vn')
step reclaim close closes vn = decopen close vn >>= λ (called, vn'). ok (false, vn')

-- The calls one after another, up to the one that reclaims the vnode.
abbrev pub run : (Vnode → Vnode) → (Vnode → Vnode) → List Call → Vnode → Result (Bool × Vnode)
run reclaim close [] vn = ok (false, vn)
run reclaim close (c ∷ cs) vn = step reclaim close c vn >>= λ (gone, vn').
    if gone then ok (true, vn') else run reclaim close cs vn'

-- How many calls of each kind there are.
abbrev pub sum : (Call → ℕ) → List Call → ℕ
sum weight [] = 0
sum weight (c ∷ cs) = weight c + sum weight cs

abbrev pub is_take : Call → ℕ
is_take takes = 1
is_take drops = 0
is_take opens = 0
is_take closes = 0

abbrev pub is_drop : Call → ℕ
is_drop takes = 0
is_drop drops = 1
is_drop opens = 0
is_drop closes = 0

abbrev pub is_open : Call → ℕ
is_open takes = 0
is_open drops = 0
is_open opens = 1
is_open closes = 0

abbrev pub is_close : Call → ℕ
is_close takes = 0
is_close drops = 0
is_close opens = 0
is_close closes = 1

-- At no time as many references are dropped as there were, nor more opens closed than there were,
-- and all that are ever made fit an `int`.
pub record Balanced (cs : List Call) (r o : ℕ) : Type 0 where
  pub refs : (n : ℕ) → sum is_drop (take n cs) < r + sum is_take (take n cs)
  pub kept_open : (n : ℕ) → sum is_close (take n cs) ≤ o + sum is_open (take n cs)
  pub refs_fit : r + sum is_take cs < int_limit
  pub opens_fit : o + sum is_open cs < int_limit

-- The counts after the calls.
abbrev pub counts : List Call → ℕ → ℕ → Vnode
counts cs r o = record {
  refcount = r + sum is_take cs - sum is_drop cs;
  opencount = o + sum is_open cs - sum is_close cs;
}

module _ (reclaim close : Vnode → Vnode) (keeps : (vn : Vnode) → close vn ≡ vn) where
  close_step :
      (r o : ℕ)
      → 0 < o
      → step reclaim close closes (record { refcount = r; opencount = o })
        ≡ ok (false, record { refcount = r; opencount = o - 1 })
  unfolding decopen
  close_step r o pos =
      let some_left : ltb 0 o ≡ true = ground arith in
      elim (Bool-cases (ltb 0 (o - 1))) [
        | inl more ↦ rw (some_left, more)
        | inr last ↦ rw (some_left, last, keeps (record { refcount = r; opencount = o - 1 }))
      ]

  abbrev from_counts : List Call → ℕ → ℕ → Result (Bool × Vnode)
  from_counts ds r o = run reclaim close ds (record { refcount = r; opencount = o })

  -- Balanced calls reclaim nothing and leave the totals.
  run-append :
      (cs ds : List Call) (r o : ℕ)
      → Balanced cs r o
      → run reclaim close (cs ++ ds) (record { refcount = r; opencount = o })
        ≡ run reclaim close ds (counts cs r o)
  unfolding incref decref incopen
  run-append [] ds r o b =
      let refs : r + 0 - 0 ≡ r = omega arith in
      let opens : o + 0 - 0 ≡ o = omega arith in rw (refs, opens)
  run-append (takes ∷ cs) ds r o b =
      let fits : ltb (r + 1) int_limit ≡ true = ground (arith, b.refs_fit) in
      let refs_now : r + 1 + sum is_take cs - sum is_drop cs
          ≡ r + (1 + sum is_take cs) - (0 + sum is_drop cs) =
        omega arith in
      let opens_now : o + sum is_open cs - sum is_close cs
          ≡ o + (0 + sum is_open cs) - (0 + sum is_close cs) =
        omega arith in
      rw fits (
        run-append cs ds (r + 1) o (record {
          refs = λ n. let le = b.refs (suc n) in omega arith;
          kept_open = λ n. let le = b.kept_open (suc n) in omega arith;
          refs_fit = omega (arith, b.refs_fit);
          opens_fit = omega (arith, b.opens_fit);
        })
        ∙ ap₂ (from_counts ds) refs_now opens_now)
  run-append (drops ∷ cs) ds r o b =
      let first = b.refs 1 in
      let more : ltb 1 r ≡ true = ground arith in
      let some_left : ltb 0 r ≡ true = ground arith in
      let refs_now : r - 1 + sum is_take cs - sum is_drop cs
          ≡ r + (0 + sum is_take cs) - (1 + sum is_drop cs) =
        omega arith in
      let opens_now : o + sum is_open cs - sum is_close cs
          ≡ o + (0 + sum is_open cs) - (0 + sum is_close cs) =
        omega arith in
      rw (some_left, more)
        (run-append cs ds (r - 1) o (record {
          refs = λ n. let le = b.refs (suc n) in omega arith;
          kept_open = λ n. let le = b.kept_open (suc n) in omega arith;
          refs_fit = omega (arith, b.refs_fit);
          opens_fit = omega (arith, b.opens_fit);
        })
          ∙ ap₂ (from_counts ds) refs_now opens_now)
  run-append (opens ∷ cs) ds r o b =
      let fits : ltb (o + 1) int_limit ≡ true = ground (arith, b.opens_fit) in
      let refs_now : r + sum is_take cs - sum is_drop cs
          ≡ r + (0 + sum is_take cs) - (0 + sum is_drop cs) =
        omega arith in
      let opens_now : o + 1 + sum is_open cs - sum is_close cs
          ≡ o + (1 + sum is_open cs) - (0 + sum is_close cs) =
        omega arith in
      rw fits (
        run-append cs ds r (o + 1) (record {
          refs = λ n. let le = b.refs (suc n) in omega arith;
          kept_open = λ n. let le = b.kept_open (suc n) in omega arith;
          refs_fit = omega (arith, b.refs_fit);
          opens_fit = omega (arith, b.opens_fit);
        })
        ∙ ap₂ (from_counts ds) refs_now opens_now)
  run-append (closes ∷ cs) ds r o b =
      let first = b.kept_open 1 in
      let refs_now : r + sum is_take cs - sum is_drop cs
          ≡ r + (0 + sum is_take cs) - (0 + sum is_drop cs) =
        omega arith in
      let opens_now : o - 1 + sum is_open cs - sum is_close cs
          ≡ o + (0 + sum is_open cs) - (1 + sum is_close cs) =
        omega arith in
      rw (close_step r o (omega arith)) (
        run-append cs ds r (o - 1) (record {
          refs = λ n. let le = b.refs (suc n) in omega arith;
          kept_open = λ n. let le = b.kept_open (suc n) in omega arith;
          refs_fit = omega (arith, b.refs_fit);
          opens_fit = omega (arith, b.opens_fit);
        })
        ∙ ap₂ (from_counts ds) refs_now opens_now)

  -- Suppose VOP_CLOSE leaves the counts, and in a sequence of calls of VOP_INCREF, VOP_DECREF, VOP_INCOPEN and
  -- VOP_DECOPEN on a vnode there is a reference left after each call, no more opens are closed than were
  -- made, the counts fit an `int`, and one reference is left at the end. Then no call panics or
  -- reclaims the vnode, the counts are the totals, and the next VOP_DECREF calls VOP_RECLAIM, which
  -- finds the reference count 1.
  pub run-last_drop :
      (cs : List Call) (vn : Vnode)
      → Balanced cs vn.refcount vn.opencount
      → vn.refcount + sum is_take cs ≡ sum is_drop cs + 1
      → (run reclaim close cs vn ≡ ok (false, counts cs vn.refcount vn.opencount))
        × (run reclaim close (cs ++ (drops ∷ [])) vn
            ≡ ok (
              true,
              reclaim (record {
                refcount = 1;
                opencount = vn.opencount + sum is_open cs - sum is_close cs;
              }),
            ))
  unfolding decref
  run-last_drop cs vn b one =
      let left : vn.refcount + sum is_take cs - sum is_drop cs ≡ 1 = omega arith in
      (
        ap (λ ds. run reclaim close ds vn) (nothing_more cs)
            ∙ run-append cs [] vn.refcount vn.opencount b,
        rw (run-append cs (drops ∷ []) vn.refcount vn.opencount b, left),
      )
    where
      nothing_more : (l : List Call) → l ≡ l ++ []
      nothing_more [] = refl
      nothing_more (c ∷ l) = ap (λ m. c ∷ m) (nothing_more l)
