-- ===== src/Common/Every.antt =====
-- Laws of the numbers below a bound, checked one by one by evaluation.
use Prim.Native.Nat.{ℕ, zero, suc, ◌<◌}
use mathlib.Core.Path.{◌≡◌}
use mathlib.Core.Bool.{Bool, true, ◌&&◌}
use native.Mathlib.Omega.{arith}

unfoldable pub every : (ℕ → Bool) → ℕ → Bool
every law zero = true
every law (suc top) = every law top && law top

pub law_at : (law : ℕ → Bool) (n top : ℕ) → n < top → every law top ≡ true → law n ≡ true
unfolding every
law_at law n zero under checked = absurd (omega arith)
law_at law n (suc top) under checked = ground (arith, law_at law n top)
