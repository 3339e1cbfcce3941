-- ===== src/Base/Float.antt =====
-- float64. The code's arithmetic on it is taken as a parameter: a type with the operations that the
-- code uses. What a theorem needs of IEEE 754 is a field of `IsOrdered`, and holds away from NaN.
use Prim.Native.Nat.{ℕ, ◌+◌, ◌-◌, ◌*◌, ◌/◌, ◌%◌, ◌^◌, zero, suc}
use mathlib.Core.Path.{◌≡◌}
use mathlib.Core.Bool.{Bool, true, not}
use mathlib.Core.List.{[], ◌∷◌}
use mathlib.Core.Logic.{◌⊎◌}
use native.Mathlib.Omega.{arith}
use nixos_fleet.Base.Tests.{ltb, leb}
use nixos_fleet.Base.Int.{ℤ, pos, negsuc}
use nixos_fleet.Base.Errors.{Bytes, ascii}

-- -n, as an integer.
abbrev pub minus : ℕ → ℤ
minus zero = pos 0
minus (suc n) = negsuc n

pub record Float64 {ℓ} (F : Type ℓ) : Type ℓ where
  -- float64(n), of an int64 or a uint64
  pub of_int : ℤ → F
  -- the constant m / 10 ^ k
  pub decimal : ℕ → ℕ → F
  pub add : F → F → F
  pub sub : F → F → F
  pub mul : F → F → F
  pub div : F → F → F
  pub lt : F → F → Bool
  pub le : F → F → Bool
  -- int64(x), towards zero
  pub trunc : F → ℤ
  -- the value of strconv.ParseFloat(s, 64), its error dropped
  pub parse : Bytes → F
  -- fmt.Sprintf("%.3f", x)
  pub fixed3 : F → Bytes

module _ {ℓ} {F : Type ℓ} ⦃f : Float64 F⦄ where
  abbrev pub of_uint : ℕ → F
  of_uint n = f.of_int (pos n)

  -- time.Duration.Seconds: whole seconds, and the nanoseconds left as a fraction.
  unfoldable pub seconds : ℤ → F
  seconds (pos n) = f.add (of_uint (n / 10 ^ 9)) (f.div (of_uint (n % 10 ^ 9)) (of_uint (10 ^ 9)))
  seconds (negsuc m) =
      let n = suc m in
      f.add (f.of_int (minus (n / 10 ^ 9)))
        (f.div (f.of_int (minus (n % 10 ^ 9))) (of_uint (10 ^ 9)))

  -- float64(d.Microseconds()) / 1000, for the time since an earlier reading of the clock.
  unfoldable pub millis : ℕ → F
  millis ns = f.div (of_uint (ns / 1000)) (of_uint 1000)

infix 4 ◌≼◌
abbrev pub ◌≼◌ {ℓ} : {F : Type ℓ} ⦃f : Float64 F⦄ → F → F → Type 0
◌≼◌ ⦃f⦄ x y = f.le x y ≡ true

-- NaN is the value that is not `<=` itself.
abbrev pub IsNumber {ℓ} : {F : Type ℓ} ⦃f : Float64 F⦄ → F → Type 0
IsNumber x = x ≼ x

pub record IsOrdered {ℓ} (F : Type ℓ) ⦃f : Float64 F⦄ : Type ℓ where
  pub le_trans : (x y z : F) → x ≼ y → y ≼ z → x ≼ z
  pub lt-eq-not-le : (x y : F) → IsNumber x → IsNumber y → f.lt x y ≡ not (f.le y x)
  pub le_total : (x y : F) → IsNumber x → IsNumber y → (x ≼ y) ⊎ (y ≼ x)

-- The parameter can be met: whole millionths, with no NaN and no value below zero.
abbrev pub Micros : Type 0
Micros = ℕ

instance abbrev pub micros_float : Float64 Micros
micros_float = record {
  of_int = λ z. elim z [ pos n ↦ n * 10 ^ 6 | negsuc n ↦ 0 ];
  decimal = λ m k. m * 10 ^ 6 / 10 ^ k;
  add = λ a b. a + b;
  sub = λ a b. a - b;
  mul = λ a b. a * b / 10 ^ 6;
  div = λ a b. a * 10 ^ 6 / b;
  lt = ltb;
  le = leb;
  trunc = λ a. pos (a / 10 ^ 6);
  parse = λ s. elim s [ [] ↦ 0 | c ∷ cs ↦ (c - b'0') * 10 ^ 6 ];
  fixed3 = λ a. (b'0' + a / 10 ^ 6 % 10) ∷ ascii ".000";
}

pub Micros-IsOrdered : IsOrdered Micros
Micros-IsOrdered = ground arith
