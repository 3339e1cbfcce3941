-- ===== src/Direct/Player/Unplayed.antt =====
-- What `runPlayerSim` reports of its loop's end.
use nixos_fleet.Base.{ℕ, true, false, ◌≡◌, refl, subst, Option, none, some, Bytes, ascii}
use nixos_fleet.Base.Float.{Float64, of_uint, seconds}
use nixos_fleet.Base.Int.{pos}
use nixos_fleet.Direct.Phase.{DirectPlayPhase, reported_delta, finished}
use nixos_fleet.Direct.Player.{
  Player, Setup, PlayerEnv, player_loop, first_state, player_phase, player_result, with_stats,
}
use nixos_fleet.Direct.Player.Invariant.{IsSound, player_loop-IsSound}
use nixos_fleet.Direct.Stats.{WindowStats, window_stats}

abbrev pub not_prerolled : Bytes
not_prerolled = ascii "buffer never reached preroll"

module _ {ℓ} {F : Type ℓ} ⦃f : Float64 F⦄ where
  -- What the phase says of the loop's end.
  pub record IsTold (st : Player F) (ph : DirectPlayPhase F) : Type ℓ where
    -- where the playback never began
    pub unplayed :
        st.playing ≡ false
        → (ph.error ≡ not_prerolled)
          × (ph.stall_count ≡ 0)
          × (ph.stall_seconds ≡ seconds (pos 0))
          × (ph.playing_seconds ≡ of_uint 0)
    -- where it did
    pub played : st.playing ≡ true → (ph.error ≡ st.error) × (ph.stall_count ≡ st.stall_n)

  player_phase-IsTold :
      (c : Setup F) (st : Player F) (ended played : ℕ) (delta : Option _) (stats : WindowStats F)
      → IsSound st
      → IsTold st (player_phase c st ended played delta stats)
  unfolding player_phase
  player_phase-IsTold c st ended played delta stats sound = record {
    unplayed = λ e. (rw e refl, (sound.quiet e).0, rw (sound.quiet e).1 refl, rw e refl);
    played = λ e. (rw e refl, refl);
  }

  same_phase : {a b : DirectPlayPhase F} → finished a ≡ finished b → a ≡ b
  same_phase e = cc

  with_stats-IsTold :
      (st : Player F) (build : WindowStats F → DirectPlayPhase F) (o : Option (WindowStats F))
      {ph : DirectPlayPhase F}
      → ((stats : WindowStats F) → IsTold st (build stats))
      → with_stats build o ≡ finished ph
      → IsTold st ph
  with_stats-IsTold st build none told e = absurd (cc)
  with_stats-IsTold st build (some stats) told e = subst (IsTold st) (same_phase e) (told stats)

  ended-IsTold :
      (c : Setup F) (env : PlayerEnv) (end : Option (Player F)) {ph : DirectPlayPhase F}
      → ((st : Player F) → end ≡ some st → IsSound st)
      → player_result c env end ≡ finished ph
      → (st : Player F) × (end ≡ some st) × IsTold st ph
  unfolding player_result
  ended-IsTold c env none sound e = absurd (cc)
  ended-IsTold c env (some st) sound e = (
    st,
    refl,
    with_stats-IsTold st _ (window_stats st.windows.closed)
        (λ stats.
          player_phase-IsTold c st env.ended env.played (reported_delta env.nfs0 env.nfs1) stats
            (sound st refl))
        e,
  )

  -- A phase of the player that is reported is that of an end of its loop. Where the playback had
  -- not begun by then, the phase says so in place of whatever error the loop met, with no stall and
  -- no time played; where it had, the phase has the loop's error and stalls.
  pub player_result-IsTold :
      (c : Setup F) (env : PlayerEnv) {ph : DirectPlayPhase F}
      → player_result c env (player_loop c env.rounds (first_state env.start)) ≡ finished ph
      → (st : Player F) × (player_loop c env.rounds (first_state env.start) ≡ some st)
        × IsTold st ph
  player_result-IsTold c env e =
      ended-IsTold c env (player_loop c env.rounds (first_state env.start))
        (λ st found. player_loop-IsSound c env.rounds env.start found) e
