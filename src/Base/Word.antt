-- ===== src/Base/Word.antt =====
-- uint64 arithmetic, with its wrap-around.
use Prim.Native.Nat.{ℕ, ◌+◌, ◌-◌, ◌*◌, ◌%◌, ◌^◌, ◌≤◌, ◌<◌}
use mathlib.Core.Path.{◌≡◌}
use native.Mathlib.Omega.{arith}

abbrev pub u64_mod : ℕ
u64_mod = 2 ^ 64

unfoldable pub add64 : ℕ → ℕ → ℕ
add64 a b = (a + b) % u64_mod

-- `-` on ℕ stops at 0, so the modulus is added first.
unfoldable pub sub64 : ℕ → ℕ → ℕ
sub64 a b = (a + u64_mod - b) % u64_mod

unfoldable pub mul64 : ℕ → ℕ → ℕ
mul64 a b = a * b % u64_mod

pub sub64_le : (a b : ℕ) → a < u64_mod → b ≤ a → sub64 a b ≡ a - b
unfolding sub64
sub64_le a b ha h = omega arith

-- Two readings of a counter that grew by less than 2 ^ 64 give the growth, also across a wrap.
pub sub64_growth : (a d : ℕ) → d < u64_mod → sub64 ((a + d) % u64_mod) (a % u64_mod) ≡ d
unfolding sub64
sub64_growth a d h = omega arith
