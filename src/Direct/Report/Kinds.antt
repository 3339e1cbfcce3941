-- ===== src/Direct/Report/Kinds.antt =====
-- The name and the kind that each run of directplay.go gives its phase.
use nixos_fleet.Base.{
  Bool, List, ◌≡◌, refl, Option, none, some, if◌then◌else◌, arith, Bytes, ascii, inl, inr,
  Option-cases,
}
use nixos_fleet.Base.Float.{Float64}
use nixos_fleet.Base.Int.{ℤ}
use nixos_fleet.Direct.Copy.{
  run_ffmpeg_copy, copy_args, copy_result, first_copy, on_samples, CopyEnv, Copy,
}
use nixos_fleet.Direct.Progress.{parse_ffmpeg_progress}
use nixos_fleet.Direct.Phase.{DirectPlayPhase, Run, finished, waiting, panicked}
use nixos_fleet.Direct.Player.{
  Player, Setup, PlayerEnv, run_player_sim, opened_player, player_result, player_phase,
}
use nixos_fleet.Direct.Sequential.{
  Reader, close_last, ReadEnv, run_sequential_max, opened_reader, read_result,
}
use nixos_fleet.Direct.Stats.{window_stats}

abbrev pub copy_name : Bool → Bytes
copy_name paced = if paced then ascii "ffmpeg_copy_re" else ascii "ffmpeg_copy"

module _ {ℓ} {F : Type ℓ} ⦃f : Float64 F⦄ where
  abbrev pub tag : DirectPlayPhase F → Bytes × Bytes
  tag ph = (ph.name, ph.kind)

  abbrev pub IsTagged : Bytes → Bytes → Run (DirectPlayPhase F) → Type 0
  IsTagged name kind (finished ph) = tag ph ≡ (name, kind)
  IsTagged name kind _ = Unit

  player_result-IsTagged :
      (c : Setup F) (env : PlayerEnv) (end : Option (Player F))
      → IsTagged (ascii "player_buffer") (ascii "player") (player_result c env end)
  unfolding player_result player_phase
  player_result-IsTagged c env none = tt
  player_result-IsTagged c env (some st) = elim (Option-cases (window_stats st.windows.closed)) [
    | inl e ↦ rw e tt
    | inr (s, e) ↦ rw e refl
  ]

  opened_player-IsTagged :
      (c : Setup F) (env : PlayerEnv) (e : Option Bytes)
      → IsTagged (ascii "player_buffer") (ascii "player") (opened_player c env e)
  unfolding opened_player
  opened_player-IsTagged c env none = player_result-IsTagged c env _
  opened_player-IsTagged c env (some e) = refl

  pub run_player_sim-IsTagged :
      (offset run_for : ℤ) (drain_bps : F) (buffer : ℤ) (env : PlayerEnv)
      → IsTagged
          (ascii "player_buffer")
          (ascii "player")
          (run_player_sim offset run_for drain_bps buffer env)
  unfolding run_player_sim opened_player player_result
  run_player_sim-IsTagged offset run_for drain_bps buffer env = elim (Option-cases env.open_error) [
    | inl e ↦ rw e (opened_player-IsTagged _ env _)
    | inr (x, e) ↦ rw e refl
  ]

  read_result-IsTagged :
      (env : ReadEnv) (end : Option (Reader F))
      → IsTagged (ascii "nfs_sequential_max") (ascii "sequential") (read_result env end)
  unfolding read_result
  read_result-IsTagged env none = tt
  read_result-IsTagged env (some st) =
      elim (Option-cases (window_stats (close_last env.closing st.windows))) [
        | inl e ↦ rw e tt
        | inr (s, e) ↦ rw e refl
      ]

  copy_result-IsTagged :
      (paced : Bool) (env : CopyEnv) (st : Copy F)
      → IsTagged (copy_name paced) (ascii "ffmpeg") (copy_result paced env st)
  unfolding copy_result
  copy_result-IsTagged paced env st = ground arith

module _ {ℓ} (F : Type ℓ) ⦃f : Float64 F⦄ where
  opened_reader-IsTagged :
      (run_for : ℤ) (env : ReadEnv) (e : Option Bytes)
      → IsTagged {F = F}
          (ascii "nfs_sequential_max")
          (ascii "sequential")
          (opened_reader {F = F} run_for env e)
  unfolding opened_reader
  opened_reader-IsTagged run_for env none = read_result-IsTagged env _
  opened_reader-IsTagged run_for env (some e) = refl

  pub run_sequential_max-IsTagged :
      (offset run_for : ℤ) (env : ReadEnv)
      → IsTagged {F = F}
          (ascii "nfs_sequential_max")
          (ascii "sequential")
          (run_sequential_max {F = F} offset run_for env)
  unfolding run_sequential_max opened_reader read_result
  run_sequential_max-IsTagged offset run_for env = elim (Option-cases env.open_error) [
    | inl e ↦ rw e (opened_reader-IsTagged run_for env _)
    | inr (x, e) ↦ rw e refl
  ]

  pub run_ffmpeg_copy-IsTagged :
      (ffmpeg input : Bytes) (seek media_for : ℤ) (paced : Bool)
      (launch : Bytes → List Bytes → CopyEnv)
      → IsTagged {F = F}
          (copy_name paced)
          (ascii "ffmpeg")
          (run_ffmpeg_copy ffmpeg input seek media_for paced launch)
  unfolding run_ffmpeg_copy copy_result
  run_ffmpeg_copy-IsTagged ffmpeg input seek media_for paced launch =
      let env = launch ffmpeg (copy_args F input seek media_for paced) in
      let samples = parse_ffmpeg_progress env.stdout in
      let last : Copy F = on_samples paced env.clock 0 (first_copy env.start) samples in
      elim (Option-cases env.pipe_error) [
        | inl e ↦ elim (Option-cases env.start_error) [
          | inl d ↦ rw (e, d) (copy_result-IsTagged paced env last)
          | inr (x, d) ↦ rw (e, d) refl
        ]
        | inr (x, e) ↦ rw e refl
      ]

module _ {ℓ} {F : Type ℓ} ⦃f : Float64 F⦄ where
  pub tag_of :
      {r : Run (DirectPlayPhase F)} {ph : DirectPlayPhase F} (name kind : Bytes)
      → IsTagged name kind r
      → r ≡ finished ph
      → tag ph ≡ (name, kind)
  tag_of {r = finished ph} name kind h e = cc
  tag_of {r = waiting} name kind h e = absurd (cc)
  tag_of {r = panicked} name kind h e = absurd (cc)
