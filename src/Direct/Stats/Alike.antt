-- ===== src/Direct/Stats/Alike.antt =====
-- Lists of numbers that compare as equal, and `insert` on them.
use nixos_fleet.Base.{not, List, [], ◌∷◌, ◌≡◌, arith, Bool-cases, inl, inr}
use nixos_fleet.Base.Float.{Float64, ◌≼◌, IsNumber, IsOrdered}
use nixos_fleet.Direct.Stats.{less, insert}
use nixos_fleet.Direct.Stats.Sorted.{AllNumbers}

module _ {ℓ} {F : Type ℓ} ⦃f : Float64 F⦄ where
  -- Numbers that compare as equal: the same number, or the two zeros.
  abbrev pub Alike : F → F → Type 0
  Alike x y = (x ≼ y) × (y ≼ x)

  abbrev pub AllAlike : List F → List F → Type 0
  AllAlike [] [] = Unit
  AllAlike (x ∷ xs) (y ∷ ys) = Alike x y × AllAlike xs ys
  AllAlike _ _ = ⊥

  pub AllAlike-refl : (xs : List F) → AllNumbers xs → AllAlike xs xs
  AllAlike-refl [] h = tt
  AllAlike-refl (x ∷ xs) (h, hs) = ((h, h), AllAlike-refl xs hs)

  module _ (laws : IsOrdered F) where
    pub AllAlike-trans : (xs ys zs : List F) → AllAlike xs ys → AllAlike ys zs → AllAlike xs zs
    AllAlike-trans [] [] [] h g = tt
    AllAlike-trans [] [] (z ∷ zs) h g = elim g [ ]
    AllAlike-trans [] (y ∷ ys) zs h g = elim h [ ]
    AllAlike-trans (x ∷ xs) [] zs h g = elim h [ ]
    AllAlike-trans (x ∷ xs) (y ∷ ys) [] h g = elim g [ ]
    AllAlike-trans (x ∷ xs) (y ∷ ys) (z ∷ zs) ((a, b), h) ((c, d), g) =
        ((laws.le_trans x y z a c, laws.le_trans z y x d b), AllAlike-trans xs ys zs h g)

    le-Alike : (x x' y y' : F) → Alike x x' → Alike y y' → f.le x y ≡ f.le x' y'
    le-Alike x x' y y' a b = ground (
      arith,
      laws.le_trans x' x y,
      laws.le_trans x' y y',
      laws.le_trans x x' y',
      laws.le_trans x y' y,
    )

    pub less-not-le : (x y : F) → IsNumber x → IsNumber y → less x y ≡ not (f.le y x)
    unfolding less
    less-not-le x y hx hy = ground (arith, laws.lt-eq-not-le x y hx hy)

    less-Alike : (x x' y y' : F) → Alike x x' → Alike y y' → less x y ≡ less x' y'
    less-Alike x x' y y' a b = ground (
      arith,
      less-not-le x y (laws.le_trans x x' x a.0 a.1) (laws.le_trans y y' y b.0 b.1),
      less-not-le x' y' (laws.le_trans x' x x' a.1 a.0) (laws.le_trans y' y y' b.1 b.0),
      le-Alike y y' x x' b a,
    )

    pub insert-Alike :
        (x x' : F) (ys ys' : List F)
        → Alike x x'
        → AllAlike ys ys'
        → AllAlike (insert x ys) (insert x' ys')
    unfolding insert
    insert-Alike x x' [] [] h g = (h, tt)
    insert-Alike x x' [] (y' ∷ ys') h g = elim g [ ]
    insert-Alike x x' (y ∷ ys) [] h g = elim g [ ]
    insert-Alike x x' (y ∷ ys) (y' ∷ ys') h (g, gs) =
        let same = less-Alike y y' x x' g h in
        elim (Bool-cases (less y x)) [
          | inl before ↦ rw (before, ← same, before) (g, insert-Alike x x' ys ys' h gs)
          | inr after ↦ rw (after, ← same, after) (h, (g, gs))
        ]
