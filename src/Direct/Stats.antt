-- ===== src/Direct/Stats.antt =====
-- directplay.go: `percentile` and `windowStats`.
pub mod Sorted
pub mod Range
pub mod Alike
pub mod Swapped
pub mod Unordered
use nixos_fleet.Base.{
  ℕ, ◌-◌, Bool, true, false, not, ◌&&◌, ◌||◌, List, [], ◌∷◌, Option, none, some, if◌then◌else◌,
  length, get_elem?,
}
use nixos_fleet.Base.Int.{ℤ, pos, negsuc}
use nixos_fleet.Base.Float.{Float64, of_uint}

module _ {ℓ} {F : Type ℓ} where
  -- A read of a slice; `none` is the panic on an index out of range.
  abbrev pub at_index : List F → ℤ → Option F
  at_index xs (pos i) = get_elem? xs i
  at_index xs (negsuc i) = none

module _ {ℓ} {F : Type ℓ} ⦃f : Float64 F⦄ where
  -- The order of sort.Float64s, which puts NaN first.
  unfoldable pub less : F → F → Bool
  less x y = f.lt x y || (not (f.le x x) && f.le y y)

  -- sort.Float64s, whose result is the one order of the values.
  unfoldable pub insert : F → List F → List F
  insert x [] = x ∷ []
  insert x (y ∷ ys) = if less y x then y ∷ insert x ys else x ∷ y ∷ ys

  unfoldable pub sort : List F → List F
  sort [] = []
  sort (x ∷ xs) = insert x (sort xs)

  unfoldable pub percentile : List F → F → Option F
  percentile [] p = some (of_uint 0)
  percentile (x ∷ xs) p =
      let last = length (x ∷ xs) - 1 in
      if f.le p (of_uint 0)
      then some x
      else if f.le (of_uint 1) p
      then get_elem? (x ∷ xs) last
      else at_index (x ∷ xs) (f.trunc (f.mul p (of_uint last)))

  unfoldable pub total : F → List F → F
  total sum [] = sum
  total sum (w ∷ ws) = total (f.add sum w) ws

-- The results of `windowStats`.
pub record WindowStats {ℓ} (F : Type ℓ) : Type ℓ where
  pub low : F
  pub p5 : F
  pub high : F
  pub avg : F

module _ {ℓ} {F : Type ℓ} ⦃f : Float64 F⦄ where
  abbrev pub with_p5 : F → F → F → Option F → Option (WindowStats F)
  with_p5 low high avg none = none
  with_p5 low high avg (some p5) = some (record { low = low; p5 = p5; high = high; avg = avg })

  abbrev pub with_high : List F → F → F → Option F → Option (WindowStats F)
  with_high sorted low avg none = none
  with_high sorted low avg (some high) = with_p5 low high avg (percentile sorted (f.decimal 5 2))

  -- The statistics of the sorted copy.
  unfoldable pub sorted_stats : List F → F → Option (WindowStats F)
  sorted_stats [] avg = none
  sorted_stats (low ∷ xs) avg =
      with_high (low ∷ xs) low avg (get_elem? (low ∷ xs) (length (low ∷ xs) - 1))

  unfoldable pub window_stats : List F → Option (WindowStats F)
  window_stats [] =
      let zero = of_uint 0 in some (record { low = zero; p5 = zero; high = zero; avg = zero })
  window_stats (w ∷ ws) =
      sorted_stats (sort (w ∷ ws)) (f.div (total (of_uint 0) (w ∷ ws)) (of_uint (length (w ∷ ws))))
