-- ===== src/Direct/Stats/Swapped.antt =====
-- Two numbers may be inserted in either order.
use nixos_fleet.Base.{true, false, List, [], ◌∷◌, ◌≡◌, if◌then◌else◌, arith, Bool-cases, inl, inr}
use nixos_fleet.Base.Float.{Float64, IsNumber, IsOrdered}
use nixos_fleet.Direct.Stats.{less, insert}
use nixos_fleet.Direct.Stats.Sorted.{AllNumbers}
use nixos_fleet.Direct.Stats.Alike.{Alike, AllAlike, AllAlike-refl, less-not-le, insert-Alike}

module _ {ℓ} {F : Type ℓ} ⦃f : Float64 F⦄ where
  module _ (laws : IsOrdered F) where
    two_heads :
        (x y : F) (r : List F)
        → IsNumber x
        → IsNumber y
        → AllNumbers r
        → AllAlike
            (if less y x then y ∷ x ∷ r else x ∷ y ∷ r)
            (if less x y then x ∷ y ∷ r else y ∷ x ∷ r)
    two_heads x y r hx hy hr =
        let yx = less-not-le laws y x hy hx in
        let xy = less-not-le laws x y hx hy in
        let same = AllAlike-refl r hr in
        elim (Bool-cases (less y x)) [
          | inl e ↦ elim (Bool-cases (less x y)) [
            | inl d ↦ absurd (ground (arith, laws.le_total x y hx hy))
            | inr d ↦ rw (e, d) ((hy, hy), ((hx, hx), same))
          ]
          | inr e ↦ elim (Bool-cases (less x y)) [
            | inl d ↦ rw (e, d) ((hx, hx), ((hy, hy), same))
            | inr d ↦
                let near : Alike x y = ground arith in rw (e, d) (near, ((near.1, near.0), same))
          ]
        ]

    less-le_trans :
        (x y z : F)
        → IsNumber x
        → IsNumber y
        → IsNumber z
        → less z x ≡ true
        → less z y ≡ false
        → (less y x ≡ true) × (less x y ≡ false)
    less-le_trans x y z hx hy hz e d = ground (
      arith,
      less-not-le laws z x hz hx,
      less-not-le laws z y hz hy,
      less-not-le laws y x hy hx,
      less-not-le laws x y hx hy,
      laws.le_trans x y z,
      laws.le_total x y hx hy,
    )

    insert-before : (x z : F) (zs : List F) → less z x ≡ true → insert x (z ∷ zs) ≡ z ∷ insert x zs
    unfolding insert
    insert-before x z zs e = ground arith

    insert-after : (x z : F) (zs : List F) → less z x ≡ false → insert x (z ∷ zs) ≡ x ∷ z ∷ zs
    unfolding insert
    insert-after x z zs e = ground arith

    insert-two :
        (x y z : F) (zs : List F)
        → less z x ≡ false
        → insert x (y ∷ z ∷ zs) ≡ (if less y x then y ∷ x ∷ z ∷ zs else x ∷ y ∷ z ∷ zs)
    unfolding insert
    insert-two x y z zs e = ground arith

    module _ (x y z : F) (zs : List F) (hx : IsNumber x) (hy : IsNumber y) (hz : IsNumber z)
        (hs : AllNumbers zs) where
      -- `z` stands before `y` and behind `x`.
      insert-between :
          less z y ≡ true
          → less z x ≡ false
          → (insert x (insert y (z ∷ zs)) ≡ x ∷ z ∷ insert y zs)
            × (insert y (insert x (z ∷ zs)) ≡ x ∷ z ∷ insert y zs)
      insert-between zy zx =
          let (xy, yx) = less-le_trans y x z hy hx hz zy zx in
          (
            rw (insert-before y z zs zy) (insert-after x z (insert y zs) zx),
            rw (insert-after x z zs zx, insert-before y x (z ∷ zs) xy, insert-before y z zs zy),
          )

      between-Alike : AllAlike (x ∷ z ∷ insert y zs) (x ∷ z ∷ insert y zs)
      between-Alike =
          ((hx, hx), ((hz, hz), insert-Alike laws y y zs zs (hy, hy) (AllAlike-refl zs hs)))

    pub insert-insert :
        (x y : F) (zs : List F)
        → IsNumber x
        → IsNumber y
        → AllNumbers zs
        → AllAlike (insert x (insert y zs)) (insert y (insert x zs))
    insert-insert x y [] hx hy hs = unfold insert in two_heads x y [] hx hy hs
    insert-insert x y (z ∷ zs) hx hy (hz, hs) = elim (Bool-cases (less z y)) [
      | inl zy ↦ elim (Bool-cases (less z x)) [
        | inl zx ↦
            rw
              (
                insert-before y z zs zy,
                insert-before x z (insert y zs) zx,
                insert-before x z zs zx,
                insert-before y z (insert x zs) zy,
              )
              ((hz, hz), insert-insert x y zs hx hy hs)
        | inr zx ↦
            let (l, r) = insert-between x y z zs hx hy hz hs zy zx in
            rw (l, r) (between-Alike x y z zs hx hy hz hs)
      ]
      | inr zy ↦ elim (Bool-cases (less z x)) [
        | inl zx ↦
            let (l, r) = insert-between y x z zs hy hx hz hs zx zy in
            rw (r, l) (between-Alike y x z zs hy hx hz hs)
        | inr zx ↦
            rw
              (
                insert-after y z zs zy,
                insert-after x z zs zx,
                insert-two x y z zs zx,
                insert-two y x z zs zy,
              )
              (two_heads x y (z ∷ zs) hx hy (hz, hs))
      ]
    ]
