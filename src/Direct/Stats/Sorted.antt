-- ===== src/Direct/Stats/Sorted.antt =====
-- The copy that `windowStats` sorts is ascending and holds the same values.
use mathlib.Core.List.{Perm}
use mathlib.Core.List.Perm
use nixos_fleet.Base.{
  true, false, List, [], ◌∷◌, ◌≡◌, if◌then◌else◌, All, arith, Bool-cases, inl, inr,
}
use nixos_fleet.Base.Float.{Float64, ◌≼◌, IsNumber, IsOrdered}
use nixos_fleet.Direct.Stats.{less, insert, sort}

module _ {ℓ} {F : Type ℓ} ⦃f : Float64 F⦄ where
  -- Each value is `<=` all that follow it.
  abbrev pub IsAscending : List F → Type 0
  IsAscending [] = Unit
  IsAscending (x ∷ xs) = All (λ y. x ≼ y) xs × IsAscending xs

  abbrev pub AllNumbers : List F → Type 0
  AllNumbers = All IsNumber

  insert-perm : (x : F) (ys : List F) → Perm (insert x ys) (x ∷ ys)
  unfolding insert
  insert-perm x [] = Perm.refl (x ∷ [])
  insert-perm x (y ∷ ys) = elim (Bool-cases (less y x)) [
    | inl before ↦ rw before (Perm.trans (Perm.cons y (insert-perm x ys)) (Perm.swap x y ys))
    | inr after ↦ rw after (Perm.refl (x ∷ y ∷ ys))
  ]

  pub sort-perm : (xs : List F) → Perm (sort xs) xs
  unfolding sort
  sort-perm [] = Perm.refl []
  sort-perm (x ∷ xs) = Perm.trans (insert-perm x (sort xs)) (Perm.cons x (sort-perm xs))

  All-insert {κ} : (P : F → Type κ) (x : F) (ys : List F) → P x → All P ys → All P (insert x ys)
  unfolding insert
  All-insert P x [] h hs = (h, tt)
  All-insert P x (y ∷ ys) h (hy, hs) = elim (Bool-cases (less y x)) [
    | inl before ↦ rw before (hy, All-insert P x ys h hs)
    | inr after ↦ rw after (h, (hy, hs))
  ]

  pub All-sort {κ} : (P : F → Type κ) (xs : List F) → All P xs → All P (sort xs)
  unfolding sort
  All-sort P [] h = tt
  All-sort P (x ∷ xs) (h, hs) = All-insert P x (sort xs) h (All-sort P xs hs)

  All-insert_inv {κ} : (P : F → Type κ) (x : F) (ys : List F) → All P (insert x ys) → P x × All P ys
  unfolding insert
  All-insert_inv P x [] h = (h.0, tt)
  All-insert_inv P x (y ∷ ys) h = elim (Bool-cases (less y x)) [
    | inl before ↦
        let (hy, hs) = swapped h before in
        let (hx, hs') = All-insert_inv P x ys hs in (hx, (hy, hs'))
    | inr after ↦ kept h after
  ]
    where
      swapped :
          All P (if less y x then y ∷ insert x ys else x ∷ y ∷ ys)
          → less y x ≡ true
          → P y × All P (insert x ys)
      swapped h e = rw e at h

      kept :
          All P (if less y x then y ∷ insert x ys else x ∷ y ∷ ys)
          → less y x ≡ false
          → P x × (P y × All P ys)
      kept h e = rw e at h

  pub All-sort_inv {κ} : (P : F → Type κ) (xs : List F) → All P (sort xs) → All P xs
  unfolding sort
  All-sort_inv P [] h = tt
  All-sort_inv P (x ∷ xs) h =
      let (hx, hs) = All-insert_inv P x (sort xs) h in (hx, All-sort_inv P xs hs)

  module _ (laws : IsOrdered F) where
    less-le : (x y : F) → IsNumber x → IsNumber y → less x y ≡ true → x ≼ y
    unfolding less
    less-le x y hx hy h = ground (arith, laws.lt-eq-not-le x y hx hy, laws.le_total x y hx hy)

    not-less-le : (x y : F) → IsNumber x → IsNumber y → less x y ≡ false → y ≼ x
    unfolding less
    not-less-le x y hx hy h = ground (arith, laws.lt-eq-not-le x y hx hy)

    All-le_trans : (x y : F) (ys : List F) → x ≼ y → All (λ z. y ≼ z) ys → All (λ z. x ≼ z) ys
    All-le_trans x y [] h hs = tt
    All-le_trans x y (z ∷ ys) h (hz, hs) = (laws.le_trans x y z h hz, All-le_trans x y ys h hs)

    insert-IsAscending :
        (x : F) (ys : List F)
        → IsNumber x
        → AllNumbers ys
        → IsAscending ys
        → IsAscending (insert x ys)
    unfolding insert
    insert-IsAscending x [] hx hs a = (tt, tt)
    insert-IsAscending x (y ∷ ys) hx (hy, hs) (below, a) = elim (Bool-cases (less y x)) [
      | inl before ↦ rw before (
        All-insert (λ z. y ≼ z) x ys (less-le y x hy hx before) below,
        insert-IsAscending x ys hx hs a,
      )
      | inr after ↦
          let x-le-y = not-less-le y x hy hx after in
          rw after ((x-le-y, All-le_trans x y ys x-le-y below), (below, a))
    ]

    pub sort-IsAscending : (xs : List F) → AllNumbers xs → IsAscending (sort xs)
    unfolding sort
    sort-IsAscending [] h = tt
    sort-IsAscending (x ∷ xs) (h, hs) =
        insert-IsAscending x (sort xs) h (All-sort IsNumber xs hs) (sort-IsAscending xs hs)
