-- ===== src/Command/Program/Effects.antt =====
-- What each flag of the table does to `force`.
use nixos_fleet.Base.{
  Bool, List, [], ◌∷◌, ◌≡◌, ◌⊎◌, inl, inr, refl, some, arith, Bytes, ascii, Bool-cases, Result, ok,
  err, ◌>>=◌,
}
use nixos_fleet.Command.Options.{Options, Parsers, formals}
use nixos_fleet.Text.Cut.{equal, equal_iff}
use nixos_fleet.Text.Flag.{Kind, switch, valued, find_flag}

infixr 2 ◌also◌
abbrev ◌also◌ {ℓ κ} : {A : Type ℓ} {B : Type κ} → A → B → A × B
a also b = (a, b)

module _ {ℓ} {F : Type ℓ} where
  -- What a flag of this kind does to `force`, given its name.
  abbrev pub Effect : Bytes → Kind (Options F) → Type ℓ
  Effect n (switch set) =
      (b : Bool) (o : Options F)
      → ((set b o).force ≡ o.force) ⊎ ((n ≡ ascii "force") × ((set b o).force ≡ b))
  Effect n (valued set) = (v : Bytes) (o o' : Options F) → set v o ≡ ok o' → o'.force ≡ o.force

  abbrev pub Formals : List (Bytes × Kind (Options F)) → Type ℓ
  Formals [] = Unit
  Formals ((n, k) ∷ fs) = Effect n k × Formals fs

  pub find_flag-Effect :
      (fs : List (Bytes × Kind (Options F))) (n : Bytes) (k : Kind (Options F))
      → Formals fs
      → find_flag fs n ≡ some k
      → Effect n k
  unfolding find_flag
  find_flag-Effect [] n k h e = absurd (cc)
  find_flag-Effect ((m, k') ∷ fs) n k (h, hs) e = elim (Bool-cases (equal n m)) [
    | inl same ↦ let kind : k' ≡ k = ground (arith, same) in rw ((equal_iff n m).0 same, ← kind) h
    | inr other ↦ find_flag-Effect fs n k hs (rw other at e)
  ]

  stored :
      {q : Options F} (o : Options F) {o' : Options F}
      → ok q ≡ ok o'
      → q.force ≡ o.force
      → o'.force ≡ o.force
  stored {q} o {o'} e p = ground arith

  stored_read {κ} :
      {V : Type κ} (r : Result V) (set : V → Options F) (o : Options F) {o' : Options F}
      → (r >>= λ x. ok (set x)) ≡ ok o'
      → ((x : V) → (set x).force ≡ o.force)
      → o'.force ≡ o.force
  stored_read (ok x) set o e p = stored o e (p x)
  stored_read (err x) set o e p = absurd (cc)

  pub formals-Effect : (ps : Parsers F) → Formals (formals ps)
  formals-Effect ps =
      (λ v o o' e. stored o e refl)
      also (λ v o o' e. stored o e refl)
      also (λ v o o' e. stored o e refl)
      also (λ v o o' e. stored o e refl)
      also (λ v o o' e. stored o e refl)
      also (λ v o o' e. stored o e refl)
      also (λ v o o' e. stored o e refl)
      also (λ v o o' e. stored_read (ps.duration v) _ o e (λ x. refl))
      also (λ v o o' e. stored_read (ps.duration v) _ o e (λ x. refl))
      also (λ v o o' e. stored_read (ps.float v) _ o e (λ x. refl))
      also (λ b o. inl refl)
      also (λ v o o' e. stored o e refl)
      also (λ v o o' e. stored o e refl)
      also (λ v o o' e. stored o e refl)
      also (λ v o o' e. stored o e refl)
      also (λ v o o' e. stored o e refl)
      also (λ v o o' e. stored_read (ps.duration v) _ o e (λ x. refl))
      also (λ v o o' e. stored_read (ps.duration v) _ o e (λ x. refl))
      also (λ b o. inr (refl, refl))
      also (λ b o. inl refl)
      also tt
