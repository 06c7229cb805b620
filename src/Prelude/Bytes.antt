-- ===== src/Prelude/Bytes.antt =====
-- Tests of all numbers below a bound, which prove a statement about each of them.
use Prim.Native.Nat.{ℕ, zero, suc, ◌<◌}
use mathlib.Core.Path.{◌≡◌, subst}
use mathlib.Core.Logic.{inl, inr}
use mathlib.Core.Bool.{Bool, true, ◌&&◌}
use native.Mathlib.Omega.{arith}
use android_device_motorola.Prelude.Tests.{◌==◌, Bool-cases}

unfoldable pub all_below : ℕ → (ℕ → Bool) → Bool
all_below zero p = true
all_below (suc n) p = p n && all_below n p

pub all_below-lt : (n : ℕ) (p : ℕ → Bool) → all_below n p ≡ true → (v : ℕ) → v < n → p v ≡ true
unfolding all_below
all_below-lt zero p e v h = absurd (omega arith)
all_below-lt (suc n) p e v h = elim (Bool-cases (v == n)) [
  | inl same ↦ let k : n ≡ v = ground arith in subst (λ i. p i ≡ true) k (ground arith)
  | inr other ↦ all_below-lt n p (ground arith) v (ground arith)
]
