-- ===== src/Prelude/Finite.antt =====
-- A test on all numbers under a bound, settled by evaluation.
use Prim.Native.Nat.{ℕ, zero, suc, ◌<◌}
use mathlib.Core.Path.{◌≡◌}
use mathlib.Core.Bool.{Bool, true, ◌&&◌}
use native.Mathlib.Omega.{arith}

unfoldable pub every : (ℕ → Bool) → ℕ → Bool
every test zero = true
every test (suc bound) = let smaller = every test bound in smaller && test bound

pub every_at :
    (test : ℕ → Bool) (bound : ℕ) {m : ℕ} → m < bound → every test bound ≡ true → test m ≡ true
unfolding every
every_at test zero m_below e = absurd (omega arith)
every_at test (suc bound) {m} m_below e = ground (arith, every_at test bound {m = m})
