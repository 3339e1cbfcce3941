-- ===== src/Direct/Stats/Range.antt =====
-- What `windowStats` returns of a series, and that its reads of the slice are in range.
use mathlib.Core.List.{Mem, mem-cons_self, mem-cons_of_mem}
use mathlib.Core.List.Perm
use mathlib.Core.Option.{some-injective}
use nixos_fleet.Base.{
  ℕ, zero, suc, ◌-◌, ◌^◌, ◌≤◌, ◌<◌, false, List, [], ◌∷◌, ◌≡◌, ◌≢◌, refl, ap, subst, ◌∙◌, none,
  some, length, get_elem?, get_elem?-lt, All, arith, Bool-cases, inl, inr,
}
use nixos_fleet.Base.Float.{Float64, of_uint, ◌≼◌, IsNumber, IsOrdered, micros_float}
use nixos_fleet.Base.Int.{pos}
use nixos_fleet.Direct.Stats.{
  less, insert, sort, percentile, total, WindowStats, sorted_stats, window_stats,
}
use nixos_fleet.Direct.Stats.Sorted.{
  IsAscending, AllNumbers, All-sort, All-sort_inv, sort-perm, sort-IsAscending,
}

-- What the reads need of IEEE 754: below 2 ^ 53 a fraction of an index, cut to an integer, is an
-- index no larger, and 0.05 lies strictly between 0 and 1.
pub record HasIndices {ℓ} (F : Type ℓ) ⦃f : Float64 F⦄ : Type ℓ where
  pub trunc-mul-le :
      (p : F) (n : ℕ)
      → IsNumber p
      → f.le p (of_uint 0) ≡ false
      → f.le (of_uint 1) p ≡ false
      → n < 2 ^ 53
      → (k : ℕ) × (f.trunc (f.mul p (of_uint n)) ≡ pos k) × (k ≤ n)
  pub p5_number : IsNumber (f.decimal 5 2)
  pub p5_pos : f.le (f.decimal 5 2) (of_uint 0) ≡ false
  pub p5_lt_one : f.le (of_uint 1) (f.decimal 5 2) ≡ false

module _ {ℓ} {F : Type ℓ} where
  none-ne-some : {x : F} → none ≢ some x
  none-ne-some e = cc

  get_elem?-mem : (xs : List F) (i : ℕ) {x : F} → get_elem? xs i ≡ some x → Mem x xs
  get_elem?-mem [] i e = absurd (none-ne-some e)
  get_elem?-mem (y ∷ xs) zero {x} e =
      subst (λ z. Mem z (y ∷ xs)) (some-injective _ _ e) mem-cons_self
  get_elem?-mem (y ∷ xs) (suc i) e = mem-cons_of_mem y (get_elem?-mem xs i e)

  All-get_elem? {κ} :
      (P : F → Type κ) (xs : List F) (i : ℕ) {x : F} → All P xs → get_elem? xs i ≡ some x → P x
  All-get_elem? P [] i h e = absurd (none-ne-some e)
  All-get_elem? P (y ∷ xs) zero h e = subst P (some-injective _ _ e) h.0
  All-get_elem? P (y ∷ xs) (suc i) h e = All-get_elem? P xs i h.1 e

module _ {ℓ} {F : Type ℓ} ⦃f : Float64 F⦄ where
  length-insert : (x : F) (ys : List F) → length (insert x ys) ≡ suc (length ys)
  unfolding insert
  length-insert x [] = refl
  length-insert x (y ∷ ys) = elim (Bool-cases (less y x)) [
    | inl before ↦ rw before (ap suc (length-insert x ys))
    | inr after ↦ rw after refl
  ]

  length-sort : (xs : List F) → length (sort xs) ≡ length xs
  unfolding sort
  length-sort [] = refl
  length-sort (x ∷ xs) = length-insert x (sort xs) ∙ ap suc (length-sort xs)

  length-sort-le :
      (w : F) (ws : List F) → length (w ∷ ws) ≤ 2 ^ 53 → length (sort (w ∷ ws)) ≤ 2 ^ 53
  length-sort-le w ws b = rw (length-sort (w ∷ ws)) b

  sort-ne-nil : (w : F) (ws : List F) → sort (w ∷ ws) ≢ []
  sort-ne-nil w ws e =
      let zero_length : length (sort (w ∷ ws)) ≡ 0 = ap (λ (l : List F). length l) e in
      absurd (omega (arith, length-sort (w ∷ ws)))

  sorted_stats-some :
      (x : F) (xs : List F) (avg : F) {high p5 : F}
      → get_elem? (x ∷ xs) (length xs) ≡ some high
      → percentile (x ∷ xs) (f.decimal 5 2) ≡ some p5
      → sorted_stats (x ∷ xs) avg ≡ some (record { low = x; p5 = p5; high = high; avg = avg })
  unfolding sorted_stats
  sorted_stats-some x xs avg e found =
      let back : suc (length xs) - 1 ≡ length xs = omega arith in rw (back, e, found)

  window_stats-sorted :
      (w : F) (ws : List F)
      → window_stats (w ∷ ws)
        ≡ sorted_stats
            (sort (w ∷ ws))
            (f.div (total (of_uint 0) (w ∷ ws)) (of_uint (length (w ∷ ws))))
  unfolding window_stats
  window_stats-sorted w ws = refl

module _ {ℓ} {F : Type ℓ} ⦃f : Float64 F⦄ (indices : HasIndices F) where
  -- `percentile` of a series that is not empty reads one of its elements.
  percentile-get_elem? :
      (xs : List F) (p : F)
      → xs ≢ []
      → length xs ≤ 2 ^ 53
      → IsNumber p
      → (v : F) × (i : ℕ) × (percentile xs p ≡ some v) × (get_elem? xs i ≡ some v)
  unfolding percentile
  percentile-get_elem? [] p ne b h = absurd (ne refl)
  percentile-get_elem? (x ∷ xs) p ne b h = elim (Bool-cases (f.le p (of_uint 0))) [
    | inl low ↦ (x, 0, rw low, refl)
    | inr above ↦ rw above (elim (Bool-cases (f.le (of_uint 1) p)) [
      | inl high ↦
          let (v, e) = get_elem?-lt (x ∷ xs) (length (x ∷ xs) - 1) (omega arith) in
          (v, length (x ∷ xs) - 1, rw high e, e)
      | inr below ↦
          let (k, cut, le) =
            indices.trunc-mul-le p (length (x ∷ xs) - 1) h above below (omega arith) in
          let (v, e) = get_elem?-lt (x ∷ xs) k (omega arith) in (v, k, rw (below, cut) e, e)
    ])
  ]

  module _ (laws : IsOrdered F) where
    All-last :
        (x : F) (xs : List F) {high : F}
        → AllNumbers (x ∷ xs)
        → IsAscending (x ∷ xs)
        → get_elem? (x ∷ xs) (length xs) ≡ some high
        → All (λ w. w ≼ high) (x ∷ xs)
    All-last x [] h a e = (subst (λ z. x ≼ z) (some-injective _ _ e) h.0, tt)
    All-last x (y ∷ xs) h a e =
        let rest = All-last y xs h.1 a.1 e in (laws.le_trans x y _ a.0.0 rest.0, rest)

    -- The statistics of a sorted series that is not empty.
    sorted_stats-range :
        (xs : List F) (avg : F)
        → xs ≢ []
        → length xs ≤ 2 ^ 53
        → AllNumbers xs
        → IsAscending xs
        → (st : WindowStats F) × (sorted_stats xs avg ≡ some st)
          × All (λ w. st.low ≼ w) xs
          × All (λ w. w ≼ st.high) xs
          × Mem st.low xs
          × Mem st.p5 xs
          × Mem st.high xs
          × (st.low ≼ st.p5)
          × (st.p5 ≼ st.high)
          × (st.avg ≡ avg)
    sorted_stats-range [] avg ne b h a = absurd (ne refl)
    sorted_stats-range (x ∷ xs) avg ne b h a =
        let (high, e) = get_elem?-lt (x ∷ xs) (length xs) (omega arith) in
        let (p5, i, found, at) =
          percentile-get_elem? (x ∷ xs) (f.decimal 5 2) ne b indices.p5_number in
        let lows : All (λ w. x ≼ w) (x ∷ xs) = (h.0, a.0) in
        let highs = All-last x xs h a e in
        (
          record { low = x; p5 = p5; high = high; avg = avg },
          sorted_stats-some x xs avg e found,
          lows,
          highs,
          mem-cons_self,
          get_elem?-mem (x ∷ xs) i at,
          get_elem?-mem (x ∷ xs) (length xs) e,
          All-get_elem? (λ w. x ≼ w) (x ∷ xs) i lows at,
          All-get_elem? (λ w. w ≼ high) (x ∷ xs) i highs at,
          refl,
        )

    -- Of a series that is not empty, of at most 2 ^ 53 windows and with no NaN, `windowStats`
    -- returns (no read of the slice is out of range) the smallest, a fifth percentile that is one
    -- of the windows and lies between, the largest, and the sum over the count; the smallest and
    -- the largest are windows too, and bound all of them.
    pub window_stats-range :
        (ws : List F)
        → ws ≢ []
        → length ws ≤ 2 ^ 53
        → AllNumbers ws
        → (st : WindowStats F) × (window_stats ws ≡ some st)
          × All (λ w. st.low ≼ w) ws
          × All (λ w. w ≼ st.high) ws
          × Mem st.low ws
          × Mem st.p5 ws
          × Mem st.high ws
          × (st.low ≼ st.p5)
          × (st.p5 ≼ st.high)
          × (st.avg ≡ f.div (total (of_uint 0) ws) (of_uint (length ws)))
    window_stats-range [] ne b h = absurd (ne refl)
    window_stats-range (w ∷ ws) ne b h =
        let avg = f.div (total (of_uint 0) (w ∷ ws)) (of_uint (length (w ∷ ws))) in
        let same = sort-perm (w ∷ ws) in
        let (st, e, lows, highs, low, p5, high, le_p5, p5_le, mean) =
          sorted_stats-range (sort (w ∷ ws)) avg (sort-ne-nil w ws) (length-sort-le w ws b)
            (All-sort IsNumber (w ∷ ws) h) (sort-IsAscending laws (w ∷ ws) h) in
        (
          st,
          window_stats-sorted w ws ∙ e,
          All-sort_inv (λ x. st.low ≼ x) (w ∷ ws) lows,
          All-sort_inv (λ x. x ≼ st.high) (w ∷ ws) highs,
          (Perm.mem_iff same).0 low,
          (Perm.mem_iff same).0 p5,
          (Perm.mem_iff same).0 high,
          le_p5,
          p5_le,
          mean,
        )
