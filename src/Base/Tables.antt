-- ===== src/Base/Tables.antt =====
-- Facts over a small range, checked value by value.
use Prim.Native.Nat.{ℕ, zero, suc, ◌<◌}
use mathlib.Core.Path.{◌≡◌}
use mathlib.Core.Bool.{Bool, true, ◌&&◌}
use native.Mathlib.Omega.{arith}

unfoldable pub each_below : (ℕ → Bool) → ℕ → Bool
each_below test zero = true
each_below test (suc bound) = each_below test bound && test bound

-- What the check found holds at every number of the range.
pub each_below_lem :
    (test : ℕ → Bool) (bound i : ℕ) → i < bound → each_below test bound ≡ true → test i ≡ true
unfolding each_below
each_below_lem test zero i l e = elim l [ ]
each_below_lem test (suc bound) i l e = ground (arith, each_below_lem test bound i)
