-- ===== src/Base/Word.antt =====
-- The 64-bit `int` and `uint64` of Go as bit patterns below 2 ^ 64, with their wrap-around.
use Prim.Native.Nat.{ℕ, ◌+◌, ◌-◌, ◌%◌, ◌^◌}
use mathlib.Core.Path.{◌≡◌}
use native.Mathlib.Omega.{arith}

unfoldable pub add64 : ℕ → ℕ → ℕ
add64 a b = (a + b) % 2 ^ 64

unfoldable pub sub64 : ℕ → ℕ → ℕ
sub64 a b = (a + 2 ^ 64 - b % 2 ^ 64) % 2 ^ 64

-- A running total that wraps is the true total reduced.
pub add64_total : (t s : ℕ) → add64 (t % 2 ^ 64) s ≡ (t + s) % 2 ^ 64
unfolding add64
add64_total t s = omega arith

pub sub64_total : (t s : ℕ) → sub64 ((t + s) % 2 ^ 64) s ≡ t % 2 ^ 64
unfolding sub64
sub64_total t s = omega arith

-- A difference of two int32.
unfoldable pub sub32 : ℕ → ℕ → ℕ
sub32 a b = (a + 2 ^ 32 - b % 2 ^ 32) % 2 ^ 32
