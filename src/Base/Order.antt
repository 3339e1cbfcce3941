-- ===== src/Base/Order.antt =====
-- Facts on sums of numbers that the components share.
use Prim.Native.Nat.{ℕ, ◌+◌, ◌%◌}
use mathlib.Core.Path.{◌≡◌}
use mathlib.Core.List.{List, [], ◌∷◌, ◌++◌}
use native.Mathlib.Omega.{arith}
use nixos_fleet.Base.Word.{u64_mod, add64}

abbrev pub sum : List ℕ → ℕ
sum [] = 0
sum (x ∷ xs) = x + sum xs

-- A wrapping accumulator is the sum at the end, wrapped once.
pub add64_regroup : (a x s : ℕ) → (add64 a x + s) % u64_mod ≡ (a + (x + s)) % u64_mod
unfolding add64
add64_regroup a x s = omega arith

pub sum-append : (xs ys : List ℕ) → sum (xs ++ ys) ≡ sum xs + sum ys
sum-append [] ys = omega arith
sum-append (x ∷ xs) ys = omega (arith, sum-append xs ys)
