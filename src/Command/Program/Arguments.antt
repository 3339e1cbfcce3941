-- ===== src/Command/Program/Arguments.antt =====
-- The arguments that set the flag `force`, by what they are written like.
use nixos_fleet.Base.{
  true, List, [], ◌∷◌, ◌++◌, ◌≡◌, ◌⊎◌, inl, inr, refl, ◌∙◌, none, some, arith, Bytes, ascii,
}
use nixos_fleet.Text.Flag.{parse_bool, Flag, cut_value, flag, shape}

-- The arguments that set the flag `force`.
pub data Forces (a : Bytes) : Type 0 where
  alone : a ≡ ascii "-force" → Forces a
  alone_two : a ≡ ascii "--force" → Forces a
  with_value : (v : Bytes) → a ≡ ascii "-force=" ++ v → parse_bool v ≡ some true → Forces a
  with_value_two : (v : Bytes) → a ≡ ascii "--force=" ++ v → parse_bool v ≡ some true → Forces a

abbrev pub Any {ℓ} : {A : Type ℓ} → (A → Type 0) → List A → Type 0
Any P [] = ⊥
Any P (x ∷ xs) = P x ⊎ Any P xs

-- How a flag is written behind its dashes.
abbrev spelled : Flag → Bytes
spelled l = l.name ++ elim l.value [ none ↦ [] | some v ↦ b'=' ∷ v ]

cut_value-spelled : (s : Bytes) → spelled (cut_value s) ≡ s
unfolding cut_value
cut_value-spelled [] = refl
cut_value-spelled (c ∷ cs) = ground (arith, cut_value-spelled cs)

shape-spelled :
    (a : Bytes) (l : Flag)
    → shape a ≡ flag l
    → (a ≡ b'-' ∷ spelled l) ⊎ (a ≡ b'-' ∷ b'-' ∷ spelled l)
unfolding shape
shape-spelled [] l e = absurd (cc)
shape-spelled (c ∷ []) l e = ground arith
shape-spelled (c ∷ d ∷ []) l e = ground (arith, cut_value-spelled [])
shape-spelled (c ∷ d ∷ x ∷ xs) l e =
    ground (arith, cut_value-spelled (x ∷ xs), cut_value-spelled xs)

-- A flag of the name `force` that sets it.
abbrev pub IsForce : Flag → Type 0
IsForce l =
    (l.name ≡ ascii "force")
    × ((l.value ≡ none) ⊎ (v : Bytes) × (l.value ≡ some v) × (parse_bool v ≡ some true))

pub shape-Forces : (a : Bytes) (l : Flag) → shape a ≡ flag l → IsForce l → Forces a
shape-Forces a l e (n, inl v) = elim (shape-spelled a l e) [
  | inl one ↦ alone (one ∙ rw (n, v) refl)
  | inr two ↦ alone_two (two ∙ rw (n, v) refl)
]
shape-Forces a l e (n, inr (v, w, yes_)) = elim (shape-spelled a l e) [
  | inl one ↦ with_value v (one ∙ rw (n, w) refl) yes_
  | inr two ↦ with_value_two v (two ∙ rw (n, w) refl) yes_
]

pub behind : {b : Bytes} {A B : Type 0} → A ⊎ B → A ⊎ Forces b ⊎ B
behind (inl a) = inl a
behind (inr b) = inr (inr b)
