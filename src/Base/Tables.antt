-- ===== src/Base/Tables.antt =====
-- A Boolean test of every number below a bound, by evaluation.
use native.Mathlib.Omega.{arith}
use mathlib.Core.Bool.{Bool, true, ◌&&◌}
use mathlib.Core.Path.{◌≡◌}
use Prim.Native.Nat.{ℕ, zero, suc, ◌<◌}

module _ (test : ℕ → Bool) where
  unfoldable pub passes_to : ℕ → Bool
  passes_to zero = true
  passes_to (suc bound) = passes_to bound && test bound

  pub passes_to_lem : (bound k : ℕ) → k < bound → passes_to bound ≡ true → test k ≡ true
  unfolding passes_to
  passes_to_lem zero k lt all = absurd (omega arith)
  passes_to_lem (suc bound) k lt all = ground (arith, passes_to_lem bound k)
