-- ===== src/Direct/Stats/Unordered.antt =====
-- `windowStats` forgets the order of the windows.
use mathlib.Core.List.{Perm, Permᴰ}
use mathlib.Core.List.Permᴰ
use mathlib.Core.Logic.{∥∥₁_elim}
use nixos_fleet.Base.{
  ℕ, zero, suc, ◌-◌, Bool, true, false, List, [], ◌∷◌, ◌≡◌, ◌≢◌, refl, ap, Option, none, some,
  if◌then◌else◌, length, get_elem?,
}
use nixos_fleet.Base.Int.{ℤ, pos, negsuc}
use nixos_fleet.Base.Float.{Float64, of_uint, IsNumber, IsOrdered}
use nixos_fleet.Direct.Stats.{
  sort, WindowStats, window_stats, sorted_stats, percentile, at_index, with_p5, with_high,
}
use nixos_fleet.Direct.Stats.Sorted.{AllNumbers, All-sort}
use nixos_fleet.Direct.Stats.Alike.{Alike, AllAlike, AllAlike-trans, insert-Alike}
use nixos_fleet.Direct.Stats.Swapped.{insert-insert}

module _ {ℓ} {F : Type ℓ} ⦃f : Float64 F⦄ where
  module _ (laws : IsOrdered F) where
    All-Permᴰ : {xs ys : List F} → Permᴰ xs ys → AllNumbers xs → AllNumbers ys
    All-Permᴰ Permᴰ.nil h = tt
    All-Permᴰ (Permᴰ.cons e p) (h, hs) = (rw (← e) h, All-Permᴰ p hs)
    All-Permᴰ (Permᴰ.swap e d) (h, (g, hs)) = (rw (← d) g, (rw (← e) h, hs))
    All-Permᴰ (Permᴰ.trans p q) h = All-Permᴰ q (All-Permᴰ p h)

    sort-Alike : {xs ys : List F} → Permᴰ xs ys → AllNumbers xs → AllAlike (sort xs) (sort ys)
    unfolding sort
    sort-Alike Permᴰ.nil h = tt
    sort-Alike (Permᴰ.cons {a} {b} {l₁} {l₂} e p) (h, hs) =
        rw (← e) (insert-Alike laws a a (sort l₁) (sort l₂) (h, h) (sort-Alike p hs))
    sort-Alike (Permᴰ.swap {a} {b} {l} e d) (h, (g, hs)) =
        rw (← e, ← d) (insert-insert laws a b (sort l) h g (All-sort IsNumber l hs))
    sort-Alike (Permᴰ.trans {l₁} {l₂} {l₃} p q) h =
        AllAlike-trans laws (sort l₁) (sort l₂) (sort l₃) (sort-Alike p h)
          (sort-Alike q (All-Permᴰ p h))

  -- Two results of a read of the slice.
  abbrev BothAlike : Option F → Option F → Type 0
  BothAlike none none = Unit
  BothAlike (some x) (some y) = Alike x y
  BothAlike _ _ = ⊥

  get_elem?-Alike :
      (xs ys : List F) (i : ℕ) → AllAlike xs ys → BothAlike (get_elem? xs i) (get_elem? ys i)
  get_elem?-Alike [] [] i h = tt
  get_elem?-Alike [] (y ∷ ys) i h = elim h [ ]
  get_elem?-Alike (x ∷ xs) [] i h = elim h [ ]
  get_elem?-Alike (x ∷ xs) (y ∷ ys) zero h = h.0
  get_elem?-Alike (x ∷ xs) (y ∷ ys) (suc i) h = get_elem?-Alike xs ys i h.1

  length-Alike : (xs ys : List F) → AllAlike xs ys → length xs ≡ length ys
  length-Alike [] [] h = refl
  length-Alike [] (y ∷ ys) h = elim h [ ]
  length-Alike (x ∷ xs) [] h = elim h [ ]
  length-Alike (x ∷ xs) (y ∷ ys) h = ap suc (length-Alike xs ys h.1)

  at_index-Alike :
      (xs ys : List F) (i : ℤ) → AllAlike xs ys → BothAlike (at_index xs i) (at_index ys i)
  at_index-Alike xs ys (pos i) h = get_elem?-Alike xs ys i h
  at_index-Alike xs ys (negsuc i) h = tt

  if-Alike :
      (t : Bool) (a b c d : Option F)
      → BothAlike a b
      → BothAlike c d
      → BothAlike (if t then a else c) (if t then b else d)
  if-Alike true a b c d h g = h
  if-Alike false a b c d h g = g

  percentile-Alike :
      (x y : F) (xs ys : List F) (p : F)
      → AllAlike (x ∷ xs) (y ∷ ys)
      → BothAlike (percentile (x ∷ xs) p) (percentile (y ∷ ys) p)
  unfolding percentile
  percentile-Alike x y xs ys p h =
      let i = f.trunc (f.mul p (of_uint (length (y ∷ ys) - 1))) in
      rw (length-Alike xs ys h.1) (
        if-Alike (f.le p (of_uint 0)) (some x) (some y) _ _ h.0 (
          if-Alike (f.le (of_uint 1) p) _ _ _ _
            (get_elem?-Alike (x ∷ xs) (y ∷ ys) (length (y ∷ ys) - 1) h)
            (at_index-Alike (x ∷ xs) (y ∷ ys) i h)))

  -- The results that are read off the sorted copy.
  abbrev pub StatsAlike : Option (WindowStats F) → Option (WindowStats F) → Type 0
  StatsAlike none none = Unit
  StatsAlike (some s) (some t) = Alike s.low t.low × Alike s.p5 t.p5 × Alike s.high t.high
  StatsAlike _ _ = ⊥

  with_p5-Alike :
      (x y u v avg avg' : F) (p q : Option F)
      → Alike x y
      → Alike u v
      → BothAlike p q
      → StatsAlike (with_p5 x u avg p) (with_p5 y v avg' q)
  with_p5-Alike x y u v avg avg' none none h g k = tt
  with_p5-Alike x y u v avg avg' none (some q) h g k = elim k [ ]
  with_p5-Alike x y u v avg avg' (some p) none h g k = elim k [ ]
  with_p5-Alike x y u v avg avg' (some p) (some q) h g k = (h, k, g)

  with_high-Alike :
      (x y avg avg' : F) (xs ys : List F) (p q : Option F)
      → AllAlike (x ∷ xs) (y ∷ ys)
      → BothAlike p q
      → StatsAlike (with_high (x ∷ xs) x avg p) (with_high (y ∷ ys) y avg' q)
  with_high-Alike x y avg avg' xs ys none none h k = tt
  with_high-Alike x y avg avg' xs ys none (some q) h k = elim k [ ]
  with_high-Alike x y avg avg' xs ys (some p) none h k = elim k [ ]
  with_high-Alike x y avg avg' xs ys (some p) (some q) h k =
      with_p5-Alike x y p q avg avg' (percentile (x ∷ xs) (f.decimal 5 2))
        (percentile (y ∷ ys) (f.decimal 5 2)) h.0 k (percentile-Alike x y xs ys (f.decimal 5 2) h)

  sorted_stats-Alike :
      (xs ys : List F) (avg avg' : F)
      → AllAlike xs ys
      → StatsAlike (sorted_stats xs avg) (sorted_stats ys avg')
  unfolding sorted_stats
  sorted_stats-Alike [] [] avg avg' h = tt
  sorted_stats-Alike [] (y ∷ ys) avg avg' h = elim h [ ]
  sorted_stats-Alike (x ∷ xs) [] avg avg' h = elim h [ ]
  sorted_stats-Alike (x ∷ xs) (y ∷ ys) avg avg' h =
      with_high-Alike x y avg avg' xs ys (get_elem? (x ∷ xs) (length (x ∷ xs) - 1))
        (get_elem? (y ∷ ys) (length (y ∷ ys) - 1)) h
        (rw (length-Alike xs ys h.1) (get_elem?-Alike (x ∷ xs) (y ∷ ys) (length (y ∷ ys) - 1) h))

  StatsAlike-IsProp : (s t : Option (WindowStats F)) → IsProp (StatsAlike s t)
  StatsAlike-IsProp none none = hlevel
  StatsAlike-IsProp none (some t) = hlevel
  StatsAlike-IsProp (some s) none = hlevel
  StatsAlike-IsProp (some s) (some t) = hlevel

  module _ (laws : IsOrdered F) where
    window_stats-Permᴰ :
        (ws vs : List F)
        → Permᴰ ws vs
        → ws ≢ []
        → AllNumbers ws
        → StatsAlike (window_stats ws) (window_stats vs)
    unfolding window_stats
    window_stats-Permᴰ [] vs p ne h = absurd (ne refl)
    window_stats-Permᴰ (w ∷ ws) [] p ne h = absurd (cc (Permᴰ.length-eq p))
    window_stats-Permᴰ (w ∷ ws) (v ∷ vs) p ne h =
        sorted_stats-Alike (sort (w ∷ ws)) (sort (v ∷ vs)) _ _ (sort-Alike laws p h)

    -- `windowStats` forgets the order of the windows: for two orders of the same windows, none of
    -- them NaN, the smallest, the fifth percentile and the largest compare as equal. The average
    -- adds them up in their order, and is left out.
    pub window_stats-perm :
        (ws vs : List F)
        → Perm ws vs
        → ws ≢ []
        → AllNumbers ws
        → StatsAlike (window_stats ws) (window_stats vs)
    window_stats-perm ws vs p ne h =
        ∥∥₁_elim p (StatsAlike-IsProp (window_stats ws) (window_stats vs))
          λ q. window_stats-Permᴰ ws vs q ne h
