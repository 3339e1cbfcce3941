-- ===== src/Direct/Report/Tags.antt =====
-- The names and the kinds of the phases of a report.
use nixos_fleet.Base.{
  true, false, List, [], ◌∷◌, ◌≡◌, refl, ◌∙◌, ap, Option, none, some, map, if◌then◌else◌, Bytes,
  ascii, Bool-cases, inl, inr, Error,
}
use nixos_fleet.Base.Float.{Float64}
use nixos_fleet.Direct.Copy.{run_ffmpeg_copy}
use nixos_fleet.Direct.Media.{Media, probe_media}
use nixos_fleet.Direct.Phase.{DirectPlayPhase, Run, finished}
use nixos_fleet.Direct.Report.{
  DirectPlayOpts, DirectPlayReport, DirectEnv, judge_player, judge_sequential, judge_fast,
  judge_paced, copy_seek, read_offset, behind_fast, behind_sequential, behind_player, run_phases,
  drain_rate, full_report, report_of, run_direct_play,
}
use nixos_fleet.Direct.Report.Verdict.{bind_run-finished}
use nixos_fleet.Direct.Sequential.{run_sequential_max}
use nixos_fleet.Text.Cut.{equal}
use nixos_fleet.Direct.Report.Kinds.{
  tag, tag_of, run_player_sim-IsTagged, run_sequential_max-IsTagged, run_ffmpeg_copy-IsTagged,
}

-- The two copies, where there is an ffmpeg.
abbrev pub copies : Bytes → List (Bytes × Bytes)
copies ffmpeg =
    if equal ffmpeg []
    then []
    else (ascii "ffmpeg_copy", ascii "ffmpeg") ∷ (ascii "ffmpeg_copy_re", ascii "ffmpeg") ∷ []

-- The phases with their names and kinds.
abbrev pub expected : Bytes → List (Bytes × Bytes)
expected ffmpeg =
    (ascii "player_buffer", ascii "player")
    ∷ (ascii "nfs_sequential_max", ascii "sequential")
    ∷ copies ffmpeg

module _ {ℓ} {F : Type ℓ} ⦃f : Float64 F⦄ where
  abbrev pub tags : List (DirectPlayPhase F) → List (Bytes × Bytes)
  tags = map tag

  same_tags : {a b : List (DirectPlayPhase F)} → finished a ≡ finished b → tags b ≡ tags a
  same_tags {a} {b} e = let same : b ≡ a = cc in ap tags same

  behind_fast-tags :
      (o : DirectPlayOpts F) (env : DirectEnv) (m : Media F) (drain : F) (p s q : DirectPlayPhase F)
      {phases : List (DirectPlayPhase F)}
      → behind_fast o env m drain p s q ≡ finished phases
      → tags phases ≡ tag p ∷ tag s ∷ tag q ∷ (ascii "ffmpeg_copy_re", ascii "ffmpeg") ∷ []
  unfolding behind_fast judge_player judge_sequential judge_fast judge_paced
  behind_fast-tags o env m drain p s q e =
      let (r, ran, made) =
        bind_run-finished
          (run_ffmpeg_copy o.ffmpeg o.input (copy_seek o.seek m) o.run_for true env.paced) _ e in
      let tagged =
        tag_of (ascii "ffmpeg_copy_re") (ascii "ffmpeg")
          (run_ffmpeg_copy-IsTagged F o.ffmpeg o.input (copy_seek o.seek m) o.run_for true
            env.paced)
          ran in
      same_tags made ∙ ap (λ (t : Bytes × Bytes). tag p ∷ tag s ∷ tag q ∷ t ∷ []) tagged

  behind_sequential-tags :
      (o : DirectPlayOpts F) (env : DirectEnv) (m : Media F) (drain : F) (p s : DirectPlayPhase F)
      {phases : List (DirectPlayPhase F)}
      → behind_sequential o env m drain p s ≡ finished phases
      → tags phases ≡ tag p ∷ tag s ∷ copies o.ffmpeg
  unfolding behind_sequential judge_player judge_sequential
  behind_sequential-tags o env m drain p s e = elim (Bool-cases (equal o.ffmpeg [])) [
    | inl absent ↦ same_tags (rw absent at e) ∙ rw absent refl
    | inr present ↦
        let (q, ran, made) =
          bind_run-finished
            (run_ffmpeg_copy o.ffmpeg o.input (copy_seek o.seek m) o.run_for false env.fast)
            (behind_fast o env m drain p s) (rw present at e) in
        let tagged =
          tag_of (ascii "ffmpeg_copy") (ascii "ffmpeg")
            (run_ffmpeg_copy-IsTagged F o.ffmpeg o.input (copy_seek o.seek m) o.run_for false
              env.fast)
            ran in
        behind_fast-tags o env m drain p s q made
        ∙ rw present (
            ap
              (λ (t : Bytes × Bytes).
                tag p ∷ tag s ∷ t ∷ (ascii "ffmpeg_copy_re", ascii "ffmpeg") ∷ [])
              tagged)
  ]

  behind_player-tags :
      (o : DirectPlayOpts F) (env : DirectEnv) (m : Media F) (drain : F) (p : DirectPlayPhase F)
      {phases : List (DirectPlayPhase F)}
      → behind_player o env m drain p ≡ finished phases
      → tags phases ≡ tag p ∷ (ascii "nfs_sequential_max", ascii "sequential") ∷ copies o.ffmpeg
  unfolding behind_player
  behind_player-tags o env m drain p e =
      let (s, ran, made) =
        bind_run-finished (run_sequential_max (read_offset o.seek m) o.run_for env.sequential)
          (behind_sequential o env m drain p) e in
      let tagged =
        tag_of (ascii "nfs_sequential_max") (ascii "sequential")
          (run_sequential_max-IsTagged F (read_offset o.seek m) o.run_for env.sequential) ran in
      behind_sequential-tags o env m drain p s made
      ∙ ap (λ (t : Bytes × Bytes). tag p ∷ t ∷ copies o.ffmpeg) tagged

  run_phases-tags :
      (o : DirectPlayOpts F) (env : DirectEnv) (m : Media F) (drain : F)
      {phases : List (DirectPlayPhase F)}
      → run_phases o env m drain ≡ finished phases
      → tags phases ≡ expected o.ffmpeg
  unfolding run_phases
  run_phases-tags o env m drain e =
      let (p, ran, made) = bind_run-finished _ (behind_player o env m drain) e in
      let tagged =
        tag_of (ascii "player_buffer") (ascii "player") (run_player_sim-IsTagged _ _ _ _ env.player)
          ran in
      behind_player-tags o env m drain p made
      ∙ ap
          (λ (t : Bytes × Bytes).
            t ∷ (ascii "nfs_sequential_max", ascii "sequential") ∷ copies o.ffmpeg)
          tagged

  same_result :
      {a b : DirectPlayReport F} {x y : Option Error}
      → ◌≡◌ {A = Run (DirectPlayReport F × Option Error)} (finished (a, x)) (finished (b, y))
      → (b ≡ a) × (y ≡ x)
  same_result e = (cc, cc)

  report_of-tags :
      (o : DirectPlayOpts F) (env : DirectEnv) (found : Media F × Option Error)
      {rep : DirectPlayReport F} {e : Option Error}
      → report_of o env found ≡ finished (rep, e)
      → tags rep.phases ≡ (elim e [ none ↦ expected o.ffmpeg | some x ↦ [] ])
  unfolding report_of full_report
  report_of-tags o env (m, some x) h = let (r, e) = same_result h in rw (r, e) refl
  report_of-tags o env (m, none) h =
      let (phases, ran, made) =
        bind_run-finished (run_phases o env m (drain_rate o.drain_mbps)) _ h in
      let (r, none_) = same_result made in rw (r, none_) (run_phases-tags o env m _ ran)

  -- Every phase of a report is of one of the three kinds that its printing tells apart, and of the
  -- kind that belongs to its name: where the file was probed, the report has the player, the
  -- sequential read and, exactly where there is an ffmpeg, the two copies, in this order, whatever
  -- errors they met; where it was not, none.
  pub run_direct_play-tags :
      (o : DirectPlayOpts F) (env : DirectEnv) {rep : DirectPlayReport F} {e : Option Error}
      → run_direct_play o env ≡ finished (rep, e)
      → tags rep.phases ≡ (elim e [ none ↦ expected o.ffmpeg | some x ↦ [] ])
  unfolding run_direct_play
  run_direct_play-tags o env h = report_of-tags o env (probe_media env.stat env.output o.ffprobe) h
