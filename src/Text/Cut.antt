-- ===== src/Text/Cut.antt =====
-- strings.Cut, Split, Join, HasPrefix, HasSuffix, CutPrefix, TrimPrefix, TrimSuffix, Contains.
use nixos_fleet.Base.{
  ℕ, ◌==◌, Bool, true, false, not, ◌&&◌, ◌||◌, List, [], ◌∷◌, ◌++◌, Option, none, some, ◌≡◌, ◌∙◌,
  refl, ◌↔◌, arith, if◌then◌else◌, Bytes, inl, inr, Bool-cases,
}

-- `==` on strings.
unfoldable pub equal : Bytes → Bytes → Bool
equal [] [] = true
equal (x ∷ xs) (y ∷ ys) = x == y && equal xs ys
equal _ _ = false

-- The test decides equality.
pub equal_iff : (s t : Bytes) → (equal s t ≡ true) ↔ (s ≡ t)
unfolding equal
equal_iff [] [] = ground arith
equal_iff [] (d ∷ t) = ground arith
equal_iff (c ∷ s) [] = ground arith
equal_iff (c ∷ s) (d ∷ t) = ground (arith, equal_iff s t)

-- strings.CutPrefix: the rest behind the prefix, if it is there.
unfoldable pub cut_prefix : Bytes → Bytes → Option Bytes
cut_prefix s [] = some s
cut_prefix [] (p ∷ ps) = none
cut_prefix (c ∷ cs) (p ∷ ps) = if c == p then cut_prefix cs ps else none

abbrev is_some {ℓ} : {A : Type ℓ} → Option A → Bool
is_some none = false
is_some (some _) = true

unfoldable pub has_prefix : Bytes → Bytes → Bool
unfolding cut_prefix
has_prefix s p = is_some (cut_prefix s p)

unfoldable pub trim_prefix : Bytes → Bytes → Bytes
unfolding cut_prefix
trim_prefix s p = elim (cut_prefix s p) [ none ↦ s | some rest ↦ rest ]

unfoldable pub has_suffix : Bytes → Bytes → Bool
unfolding equal
has_suffix [] p = equal [] p
has_suffix (c ∷ cs) p = equal (c ∷ cs) p || has_suffix cs p

unfoldable pub trim_suffix : Bytes → Bytes → Bytes
unfolding equal
trim_suffix [] p = []
trim_suffix (c ∷ cs) p = if equal (c ∷ cs) p then [] else c ∷ trim_suffix cs p

unfoldable pub contains : Bytes → Bytes → Bool
unfolding has_prefix
contains [] p = has_prefix [] p
contains (c ∷ cs) p = has_prefix (c ∷ cs) p || contains cs p

abbrev prepend_fst : ℕ → Option (Bytes × Bytes) → Option (Bytes × Bytes)
prepend_fst c none = none
prepend_fst c (some (k, v)) = some (c ∷ k, v)

-- strings.Cut at a separator of one byte: `none` where it does not occur.
unfoldable pub cut : ℕ → Bytes → Option (Bytes × Bytes)
cut sep [] = none
cut sep (c ∷ cs) = if c == sep then some ([], cs) else prepend_fst c (cut sep cs)

abbrev prepend_head : ℕ → List Bytes → List Bytes
prepend_head c [] = (c ∷ []) ∷ []
prepend_head c (w ∷ ws) = (c ∷ w) ∷ ws

-- strings.Split at a separator of one byte. The result is never empty.
unfoldable pub split : ℕ → Bytes → List Bytes
split sep [] = [] ∷ []
split sep (c ∷ cs) = if c == sep then [] ∷ split sep cs else prepend_head c (split sep cs)

-- strings.Join with a separator of one byte.
unfoldable pub join : ℕ → List Bytes → Bytes
join sep [] = []
join sep (w ∷ []) = w
join sep (w ∷ v ∷ ws) = w ++ (sep ∷ join sep (v ∷ ws))

abbrev pub without : ℕ → Bytes → Bool
without b [] = true
without b (c ∷ cs) = not (c == b) && without b cs

pub cut-append :
    (sep : ℕ) (k v : Bytes) → without sep k ≡ true → cut sep (k ++ (sep ∷ v)) ≡ some (k, v)
unfolding cut
cut-append sep [] v h = ground arith
cut-append sep (c ∷ k) v h = ground (arith, cut-append sep k v)

pub split-word : (sep : ℕ) (w : Bytes) → without sep w ≡ true → split sep w ≡ w ∷ []
unfolding split
split-word sep [] h = refl
split-word sep (c ∷ w) h = ground (arith, split-word sep w)

pub split-append :
    (sep : ℕ) (w rest : Bytes)
    → without sep w ≡ true
    → split sep (w ++ (sep ∷ rest)) ≡ w ∷ split sep rest
unfolding split
split-append sep [] rest h = ground arith
split-append sep (c ∷ w) rest h = ground (arith, split-append sep w rest)

join-prepend_head :
    (sep c : ℕ) (w : Bytes) (ws : List Bytes)
    → join sep (prepend_head c (w ∷ ws)) ≡ c ∷ join sep (w ∷ ws)
unfolding join
join-prepend_head sep c w [] = refl
join-prepend_head sep c w (v ∷ ws) = refl

join-nil :
    (sep : ℕ) (w : Bytes) (ws : List Bytes) → join sep ([] ∷ w ∷ ws) ≡ sep ∷ join sep (w ∷ ws)
unfolding join
join-nil sep w ws = refl

pub split-cons : (sep : ℕ) (s : Bytes) → (w : Bytes) × (ws : List Bytes) × (split sep s ≡ w ∷ ws)
unfolding split
split-cons sep [] = ([], [], refl)
split-cons sep (c ∷ cs) =
    let (w, ws, e) = split-cons sep cs in
    elim (Bool-cases (c == sep)) [
      | inl same ↦ ([], split sep cs, rw same)
      | inr other ↦ (c ∷ w, ws, rw (other, e))
    ]

-- Nothing is lost: the pieces joined again are the text.
pub join-split : (sep : ℕ) (s : Bytes) → join sep (split sep s) ≡ s
unfolding split
join-split sep [] = unfold join in refl
join-split sep (c ∷ cs) =
    let (w, ws, e) = split-cons sep cs in
    let ih : join sep (w ∷ ws) ≡ cs = rw e at (join-split sep cs) in
    rw e (ground (arith, join-prepend_head sep c w ws, join-nil sep w ws))

pub cut_prefix-append : (p s : Bytes) → cut_prefix (p ++ s) p ≡ some s
unfolding cut_prefix
cut_prefix-append [] s = refl
cut_prefix-append (c ∷ p) s = ground (arith, cut_prefix-append p s)

pub has_prefix-append : (p s : Bytes) → has_prefix (p ++ s) p ≡ true
unfolding has_prefix
has_prefix-append p s = ground (arith, cut_prefix-append p s)

-- The value behind the key, where the text was cut into one with this key.
abbrev pub value_at : Bytes → Option (Bytes × Bytes) → Option Bytes
value_at key none = none
value_at key (some (k, v)) = if equal k key then some v else none

value_at-prepend_fst :
    (x c : ℕ) (key : Bytes) (p : Option (Bytes × Bytes))
    → value_at (x ∷ key) (prepend_fst c p) ≡ (if c == x then value_at key p else none)
unfolding equal
value_at-prepend_fst x c key none = ground arith
value_at-prepend_fst x c key (some (k, v)) = ground arith

value_at_nil-prepend_fst :
    (c : ℕ) (p : Option (Bytes × Bytes)) → value_at [] (prepend_fst c p) ≡ none
unfolding equal
value_at_nil-prepend_fst c none = refl
value_at_nil-prepend_fst c (some (k, v)) = refl

-- To cut at the separator and compare the key is to cut the key and the separator as a prefix.
pub value_at-cut :
    (sep : ℕ) (key s : Bytes)
    → without sep key ≡ true
    → value_at key (cut sep s) ≡ cut_prefix s (key ++ sep ∷ [])
unfolding cut cut_prefix
value_at-cut sep [] [] h = refl
value_at-cut sep [] (c ∷ cs) h = elim (Bool-cases (c == sep)) [
  | inl same ↦ rw same (unfold equal in refl)
  | inr other ↦ rw other (value_at_nil-prepend_fst c (cut sep cs))
]
value_at-cut sep (x ∷ key) [] h = refl
value_at-cut sep (x ∷ key) (c ∷ cs) h = elim (Bool-cases (c == sep)) [
  | inl same ↦ rw same (unfold equal in ground arith)
  | inr other ↦
      rw other (value_at-prepend_fst x c key (cut sep cs) ∙ ground (arith, value_at-cut sep key cs))
]
