-- ===== src/Common/Table.antt =====
-- A test that is run on each number below a bound.
use Prim.Native.Nat.{ℕ, zero, suc, ◌<◌}
use mathlib.Core.Path.{◌≡◌}
use mathlib.Core.Bool.{Bool, true, false}
use native.Mathlib.Omega.{arith}
use ircd_hybrid_8_cvs.Common.Tests.{if◌then◌else◌}

unfoldable pub passes_below : (ℕ → Bool) → ℕ → Bool
passes_below test zero = true
passes_below test (suc k) = if test k then passes_below test k else false

pub passes_below_lem :
    (test : ℕ → Bool) (k i : ℕ) → i < k → passes_below test k ≡ true → test i ≡ true
unfolding passes_below
passes_below_lem test zero i lt all = absurd (omega arith)
passes_below_lem test (suc k) i lt all = ground (arith, passes_below_lem test k i)
