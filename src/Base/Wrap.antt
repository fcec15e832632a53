-- ===== src/Base/Wrap.antt =====
-- Indices that go round: `(h + k) % s` from `h` and `k` below `s`.
use Prim.Native.Nat.{ℕ, suc, ◌+◌, ◌-◌, ◌%◌, ◌<◌}
use mathlib.Core.Path.{◌≡◌, ◌∙◌}
use mathlib.Core.Logic.{inl, inr}
use native.Mathlib.Nat.{mod-eq_of_lt, mod-eq-sub-mod, mod-add-mod, add-mod_right}
use native.Mathlib.Omega.{arith}
use cs325os.Base.Tests.{ltb, if◌then◌else◌, Bool-cases, ltb→lt}

pub wrap_lem :
    (s h k : ℕ) → h < s → k < s → (h + k) % s ≡ (if ltb (h + k) s then h + k else h + k - s)
wrap_lem s h k hh hk = elim (Bool-cases (ltb (h + k) s)) [
  | inl p ↦ rw p (mod-eq_of_lt (ltb→lt (h + k) s p))
  | inr p ↦
      let le : s < h + k + 1 = ground arith in
      let lt : h + k - s < s = omega arith in
      rw p (mod-eq-sub-mod {n = h + k} {m = s} (omega arith) ∙ mod-eq_of_lt lt)
]

-- One full round.
pub wrap_full : (s h k : ℕ) → h < s → k ≡ s → (h + k) % s ≡ h
wrap_full s h k hh e = rw e (add-mod_right h s ∙ mod-eq_of_lt hh)

pub wrap_step : (s h k : ℕ) → ((h + k) % s + 1) % s ≡ (h + (k + 1)) % s
wrap_step s h k = mod-add-mod (h + k) s 1 ∙ (let e : h + k + 1 ≡ h + (k + 1) = omega arith in rw e)

pub wrap_shift : (s h k : ℕ) → ((h + 1) % s + k) % s ≡ (h + suc k) % s
wrap_shift s h k = mod-add-mod (h + 1) s k ∙ (let e : h + 1 + k ≡ h + suc k = omega arith in rw e)
