-- ===== src/Direct/Player/Ends.antt =====
-- The loop of `runPlayerSim` ends.
use nixos_fleet.Base.{
  ℕ, true, List, [], ◌∷◌, ◌≡◌, ◌≢◌, ◌⊎◌, refl, sym, ◌∙◌, Option, none, some, Bytes, inl, inr,
}
use nixos_fleet.Base.Float.{Float64}
use nixos_fleet.Base.Int.{ℤ, sub_ℕ, leb_ℤ}
use nixos_fleet.Direct.Player.{
  Round, Player, Setup, Step, again, stop, timed_round, checked_round, player_round, player_loop,
  drain_to,
}

-- A round begins when the time that the run was given is over, or after the context was cancelled.
abbrev pub IsOver : ℕ → ℤ → Round → Type 0
IsOver start run_for r = (r.ctx ≢ none) ⊎ (leb_ℤ run_for (sub_ℕ r.now start) ≡ true)

abbrev pub SomeOver : ℕ → ℤ → List Round → Type 0
SomeOver start run_for [] = ⊥
SomeOver start run_for (r ∷ rs) = IsOver start run_for r ⊎ SomeOver start run_for rs

module _ {ℓ} {F : Type ℓ} ⦃f : Float64 F⦄ where
  over-stop :
      (c : Setup F) (r : Round) (st : Player F) (ctx : Option Bytes)
      → (ctx ≢ none) ⊎ (leb_ℤ c.run_for (sub_ℕ r.now c.start) ≡ true)
      → (final : Player F) × (checked_round c r st ctx ≡ stop final)
  unfolding timed_round
  over-stop c r st (some e) h = (record st { error = e }, refl)
  over-stop c r st none (inl h) = absurd (h refl)
  over-stop c r st none (inr h) = (drain_to c r.now st, rw h)

  some-ne-none : {st : Player F} → some st ≢ none
  some-ne-none e = cc

  after_round :
      (rest : Player F → Option (Player F)) (s : Step (Player F))
      → ((st : Player F) → rest st ≢ none)
      → elim s [ again next ↦ rest next | stop st ↦ some st ] ≢ none
  after_round rest (again next) keep e = keep next e
  after_round rest (stop st) keep e = some-ne-none e

  after_stop :
      (rest : Player F → Option (Player F)) (s : Step (Player F)) {final : Player F}
      → s ≡ stop final
      → elim s [ again next ↦ rest next | stop st ↦ some st ] ≡ some final
  after_stop rest (again next) e = cc
  after_stop rest (stop st) e = cc

  player_round-stop :
      (c : Setup F) (r : Round) (st : Player F)
      → IsOver c.start c.run_for r
      → (final : Player F) × (player_round c r st ≡ stop final)
  unfolding player_round
  player_round-stop c r st over = over-stop c r st r.ctx over

  -- The loop of the player ends by the first round, at the latest, that begins when the run's time
  -- is over or after the context was cancelled, from whatever state.
  pub player_loop-ends :
      (c : Setup F) (rounds : List Round) (st : Player F)
      → SomeOver c.start c.run_for rounds
      → player_loop c rounds st ≢ none
  unfolding player_loop
  player_loop-ends c [] st h e = absurd h
  player_loop-ends c (r ∷ rs) st (inr later) e =
      after_round (player_loop c rs) (player_round c r st)
        (λ next. player_loop-ends c rs next later) e
  player_loop-ends c (r ∷ rs) st (inl over) e =
      let (final, stops) = player_round-stop c r st over in
      some-ne-none (sym (after_stop (player_loop c rs) (player_round c r st) stops) ∙ e)
