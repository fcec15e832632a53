-- ===== src/Tests/Vnodes.antt =====
-- kern/fs/vfs/vnode.c on one vnode.
use cs325os.Base.{
  ℕ, zero, suc, ◌<◌, ◌≤◌, ◌+◌, ◌≡◌, refl, true, false, List, [], ◌∷◌, take, ok, arith,
}
use cs325os.Vnode.{Vnode}
use cs325os.Vnode.Balance.{
  Call, takes, drops, opens, closes, run, sum, is_take, is_drop, is_open, is_close, Balanced,
  run-last_drop,
}

abbrev gone : Vnode → Vnode
gone vn = record { refcount = 0; opencount = 0 }

abbrev kept_open : Vnode → Vnode
kept_open vn = vn

-- A second reference, an open of it and its close, and the second reference is dropped.
abbrev life : List Call
life = takes ∷ opens ∷ closes ∷ drops ∷ []

life-refs : (n : ℕ) → sum is_drop (take n life) < 1 + sum is_take (take n life)
life-refs zero = omega arith
life-refs (suc zero) = omega arith
life-refs (suc (suc zero)) = omega arith
life-refs (suc (suc (suc zero))) = omega arith
life-refs (suc (suc (suc (suc zero)))) = omega arith
life-refs (suc (suc (suc (suc (suc n))))) = omega arith

life-opens : (n : ℕ) → sum is_close (take n life) ≤ 0 + sum is_open (take n life)
life-opens zero = omega arith
life-opens (suc zero) = omega arith
life-opens (suc (suc zero)) = omega arith
life-opens (suc (suc (suc zero))) = omega arith
life-opens (suc (suc (suc (suc zero)))) = omega arith
life-opens (suc (suc (suc (suc (suc n))))) = omega arith

life-Balanced : Balanced life 1 0
life-Balanced = record {
  refs = life-refs;
  kept_open = life-opens;
  refs_fit = omega arith;
  opens_fit = omega arith;
}

run-last_drop_example :
    (run gone kept_open life (record { refcount = 1; opencount = 0 })
      ≡ ok (false, record { refcount = 1; opencount = 0 }))
    × (run gone kept_open
          (takes ∷ opens ∷ closes ∷ drops ∷ drops ∷ [])
          (record { refcount = 1; opencount = 0 })
        ≡ ok (true, record { refcount = 0; opencount = 0 }))
run-last_drop_example =
    run-last_drop gone kept_open (λ vn. refl) life (record { refcount = 1; opencount = 0 })
      life-Balanced refl
