-- ===== src/Tests/Queues.antt =====
-- kern/lib/queue.c on concrete queues.
use cs325os.Base.{
  ℕ, zero, suc, ◌+◌, ◌%◌, ◌≤◌, ◌≡◌, refl, Bool, true, false, none, some, [], ◌∷◌, ok, arith,
  get_elem?,
}
use cs325os.Queue
use cs325os.Queue.{Queue}
use cs325os.Queue.Model.{Holds, Takes, remhead-Takes}
use cs325os.Queue.Refine.{Grows, addtail-Holds}

abbrev always : ℕ → Bool
always n = true

abbrev never : ℕ → Bool
never n = false

-- A ring of four that holds 8 and 9, round its end.
abbrev wrapped : Queue ℕ
wrapped = record {
  size = 4;
  nextwrite = 1;
  nextread = 3;
  words = some 9 ∷ none ∷ none ∷ some 8 ∷ [];
}

-- A full ring of two.
abbrev tight : Queue ℕ
tight = record { size = 2; nextwrite = 0; nextread = 1; words = none ∷ some 5 ∷ [] }

wrapped-slots :
    (k x : ℕ)
    → get_elem? (8 ∷ 9 ∷ []) k ≡ some x
    → get_elem? wrapped.words ((3 + k) % 4) ≡ some (some x)
wrapped-slots zero x e = cc
wrapped-slots (suc zero) x e = cc
wrapped-slots (suc (suc k)) x e = cc

wrapped-Holds : Holds wrapped (8 ∷ 9 ∷ [])
wrapped-Holds = record {
  free = omega arith;
  small = omega arith;
  backed = omega arith;
  start = omega arith;
  finish = refl;
  slots = wrapped-slots;
}

tight-slots :
    (k x : ℕ) → get_elem? (5 ∷ []) k ≡ some x → get_elem? tight.words ((1 + k) % 2) ≡ some (some x)
tight-slots zero x e = cc
tight-slots (suc k) x e = cc

tight-Holds : Holds tight (5 ∷ [])
tight-Holds = record {
  free = omega arith;
  small = omega arith;
  backed = omega arith;
  start = omega arith;
  finish = refl;
  slots = tight-slots;
}

addtail_grows :
    Queue.addtail always tight 6
    ≡ ok (
      0,
      record { size = 4; nextwrite = 2; nextread = 0; words = some 5 ∷ some 6 ∷ none ∷ none ∷ [] },
    )
unfolding Queue.addtail Queue.grow Queue.grow_size Queue.refill Queue.put
addtail_grows = refl

remhead-wrapped : Queue.remhead wrapped ≡ ok (8, record wrapped { nextread = 0 })
unfolding Queue.remhead
remhead-wrapped = refl

remhead-Takes_example : Takes wrapped (8 ∷ 9 ∷ []) (Queue.remhead wrapped)
remhead-Takes_example = remhead-Takes wrapped (8 ∷ 9 ∷ []) wrapped-Holds

addtail-Holds_example :
    Grows always tight (5 ∷ 6 ∷ []) (λ q'. 2 ≤ q'.size) (Queue.addtail always tight 6)
addtail-Holds_example = addtail-Holds always 6 tight-Holds (omega arith)
