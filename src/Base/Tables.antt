-- ===== src/Base/Tables.antt =====
-- A fact about every number below a bound, checked by evaluation.
use Prim.Native.Nat.{ℕ, zero, suc, ◌<◌}
use mathlib.Core.Path.{◌≡◌}
use mathlib.Core.Bool.{Bool, true, ◌&&◌}
use native.Mathlib.Omega.{arith}

unfoldable pub holds_below : ℕ → (ℕ → Bool) → Bool
holds_below zero test = true
holds_below (suc n) test = test n && holds_below n test

pub holds_at : (n : ℕ) (test : ℕ → Bool) (i : ℕ) → holds_below n test ≡ true → i < n → test i ≡ true
unfolding holds_below
holds_at zero test i h lt = absurd (omega arith)
holds_at (suc n) test i h lt = ground (arith, holds_at n test i)
