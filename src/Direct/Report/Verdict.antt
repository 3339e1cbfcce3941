-- ===== src/Direct/Report/Verdict.antt =====
-- When `runDirectPlay` reports a pass.
use nixos_fleet.Base.{
  true, false, List, [], ◌∷◌, ◌≡◌, ◌≢◌, ◌↔◌, ◌⊎◌, ◌∙◌, refl, sym, Option, none, arith, Bytes, Error,
  Bool-cases, inl, inr,
}
use nixos_fleet.Base.Float.{Float64, of_uint}
use nixos_fleet.Base.Int.{ℤ}
use nixos_fleet.Direct.Copy.{run_ffmpeg_copy}
use nixos_fleet.Direct.Media.{Media, probe_media}
use nixos_fleet.Direct.Phase.{DirectPlayPhase, Run, finished, waiting, panicked}
use nixos_fleet.Direct.Report.{
  DirectPlayOpts, DirectPlayReport, DirectEnv, bind_run, is_long, judge_player, judge_sequential,
  judge_fast, judge_paced, all_pass, run_phases, behind_player, behind_sequential, behind_fast,
  copy_seek, full_report, drain_rate, report_of, run_direct_play,
}
use nixos_fleet.Text.Cut.{equal, equal_iff}

pub bind_run-finished {ℓ κ} :
    {A : Type ℓ} {B : Type κ} (r : Run A) (next : A → Run B) {b : B}
    → bind_run r next ≡ finished b
    → (a : A) × (r ≡ finished a) × (next a ≡ finished b)
bind_run-finished (finished a) next e = (a, refl, e)
bind_run-finished waiting next e = absurd (cc)
bind_run-finished panicked next e = absurd (cc)

true-ne-false : true ≢ false
true-ne-false e = cc

module _ {ℓ} {F : Type ℓ} ⦃f : Float64 F⦄ where
  -- The player met no error, did not stall, and played.
  abbrev pub HasPlayed : DirectPlayPhase F → Type 0
  HasPlayed p = (p.error ≡ []) × (p.stall_count ≡ 0) × (f.lt (of_uint 0) p.playing_seconds ≡ true)

  -- The read met no error, and was no slower than the player drains.
  abbrev pub HasSustained : F → DirectPlayPhase F → Type 0
  HasSustained drain p = (p.error ≡ []) × (f.le drain p.avg_mbps ≡ true)

  -- The copy met no error, and 95 % of the media time that it was given were copied.
  abbrev pub HasCopied : ℤ → DirectPlayPhase F → Type 0
  HasCopied run_for p = (p.error ≡ []) × (is_long run_for p ≡ true)

  -- The copy did not fall behind its timestamps.
  abbrev pub HasKeptPace : DirectPlayPhase F → Type 0
  HasKeptPace p = (p.stall_count ≡ 0) × (f.lt (of_uint 2) p.stall_seconds ≡ false)

  -- The phases meet what is asked of them, in their order, the copies only where there is an ffmpeg.
  abbrev pub Accepts : Bytes → ℤ → F → List (DirectPlayPhase F) → Type 0
  Accepts ffmpeg run_for drain (player ∷ sequential ∷ []) =
      (ffmpeg ≡ []) × HasPlayed player × HasSustained drain sequential
  Accepts ffmpeg run_for drain (player ∷ sequential ∷ fast ∷ paced ∷ []) =
      (ffmpeg ≢ [])
      × HasPlayed player
      × HasSustained drain sequential
      × HasCopied run_for fast
      × HasCopied run_for paced
      × HasKeptPace paced
  Accepts ffmpeg run_for drain _ = ⊥

  judge_player_iff : (p : DirectPlayPhase F) → ((judge_player p).pass ≡ true) ↔ HasPlayed p
  unfolding judge_player
  judge_player_iff p = ground (arith, equal_iff p.error [])

  judge_sequential_iff :
      (drain : F) (p : DirectPlayPhase F)
      → ((judge_sequential drain p).pass ≡ true) ↔ HasSustained drain p
  unfolding judge_sequential
  judge_sequential_iff drain p = ground (arith, equal_iff p.error [])

  judge_fast_iff :
      (run_for : ℤ) (p : DirectPlayPhase F)
      → ((judge_fast run_for p).pass ≡ true) ↔ HasCopied run_for p
  unfolding judge_fast
  judge_fast_iff run_for p = ground (arith, equal_iff p.error [])

  judge_paced_iff :
      (run_for : ℤ) (p : DirectPlayPhase F)
      → ((judge_paced run_for p).pass ≡ true) ↔ HasCopied run_for p × HasKeptPace p
  unfolding judge_paced
  judge_paced_iff run_for p = ground (arith, equal_iff p.error [])

  all_pass_iff :
      (p : DirectPlayPhase F) (ps : List (DirectPlayPhase F))
      → (all_pass (p ∷ ps) ≡ true) ↔ (p.pass ≡ true) × (all_pass ps ≡ true)
  unfolding all_pass
  all_pass_iff p ps = ground arith

  -- What the phases of a run are.
  unfoldable IsJudged : DirectPlayOpts F → F → List (DirectPlayPhase F) → Type ℓ
  IsJudged o drain phases =
      ((player : DirectPlayPhase F) × (sequential : DirectPlayPhase F) × (o.ffmpeg ≡ [])
        × (phases ≡ judge_player player ∷ judge_sequential drain sequential ∷ []))
      ⊎ ((player : DirectPlayPhase F) × (sequential : DirectPlayPhase F) × (fast : DirectPlayPhase
            F)
          × (paced : DirectPlayPhase F) × (o.ffmpeg ≢ [])
          × (phases
              ≡ judge_player player
                ∷ judge_sequential drain sequential
                ∷ judge_fast o.run_for fast
                ∷ judge_paced o.run_for paced
                ∷ []))

  same_phases : {a b : List (DirectPlayPhase F)} → finished a ≡ finished b → b ≡ a
  same_phases e = cc

  behind_fast-IsJudged :
      (o : DirectPlayOpts F) (env : DirectEnv) (m : Media F) (drain : F)
      (player sequential fast : DirectPlayPhase F) {phases : List (DirectPlayPhase F)}
      → o.ffmpeg ≢ []
      → behind_fast o env m drain player sequential fast ≡ finished phases
      → IsJudged o drain phases
  unfolding behind_fast IsJudged
  behind_fast-IsJudged o env m drain player sequential fast present e =
      let (paced, _, e1) =
        bind_run-finished
          (run_ffmpeg_copy o.ffmpeg o.input (copy_seek o.seek m) o.run_for true env.paced) _ e in
      inr (player, sequential, fast, paced, present, same_phases e1)

  behind_sequential-IsJudged :
      (o : DirectPlayOpts F) (env : DirectEnv) (m : Media F) (drain : F)
      (player sequential : DirectPlayPhase F) {phases : List (DirectPlayPhase F)}
      → behind_sequential o env m drain player sequential ≡ finished phases
      → IsJudged o drain phases
  unfolding behind_sequential IsJudged
  behind_sequential-IsJudged o env m drain player sequential e =
      elim (Bool-cases (equal o.ffmpeg [])) [
        | inl absent ↦
            inl (player, sequential, (equal_iff o.ffmpeg []).0 absent, same_phases (rw absent at e))
        | inr present ↦
            let (fast, _, e1) =
              bind_run-finished _ (behind_fast o env m drain player sequential) (rw present at e) in
            behind_fast-IsJudged o env m drain player sequential fast
              (λ (x : o.ffmpeg ≡ []). true-ne-false (sym ((equal_iff o.ffmpeg []).1 x) ∙ present))
              e1
      ]

  behind_player-IsJudged :
      (o : DirectPlayOpts F) (env : DirectEnv) (m : Media F) (drain : F)
      (player : DirectPlayPhase F) {phases : List (DirectPlayPhase F)}
      → behind_player o env m drain player ≡ finished phases
      → IsJudged o drain phases
  unfolding behind_player
  behind_player-IsJudged o env m drain player e =
      let (sequential, _, e1) = bind_run-finished _ (behind_sequential o env m drain player) e in
      behind_sequential-IsJudged o env m drain player sequential e1

  run_phases-IsJudged :
      (o : DirectPlayOpts F) (env : DirectEnv) (m : Media F) (drain : F)
      {phases : List (DirectPlayPhase F)}
      → run_phases o env m drain ≡ finished phases
      → IsJudged o drain phases
  unfolding run_phases
  run_phases-IsJudged o env m drain e =
      let (player, _, e1) = bind_run-finished _ (behind_player o env m drain) e in
      behind_player-IsJudged o env m drain player e1

  pair-Accepts :
      (ffmpeg : Bytes) (run_for : ℤ) (drain : F) (player sequential : DirectPlayPhase F)
      → ffmpeg ≡ []
      → let phases = judge_player player ∷ judge_sequential drain sequential ∷ [] in
        (all_pass phases ≡ true) ↔ Accepts ffmpeg run_for drain phases
  unfolding all_pass judge_player judge_sequential
  pair-Accepts ffmpeg run_for drain player sequential e =
      ground (arith, judge_player_iff player, judge_sequential_iff drain sequential)

  four-Accepts :
      (ffmpeg : Bytes) (run_for : ℤ) (drain : F) (player sequential fast paced : DirectPlayPhase F)
      → ffmpeg ≢ []
      → let phases =
          judge_player player
          ∷ judge_sequential drain sequential
          ∷ judge_fast run_for fast
          ∷ judge_paced run_for paced
          ∷ [] in
        (all_pass phases ≡ true) ↔ Accepts ffmpeg run_for drain phases
  unfolding all_pass judge_player judge_sequential judge_fast judge_paced
  four-Accepts ffmpeg run_for drain player sequential fast paced e = ground (
    arith,
    judge_player_iff player,
    judge_sequential_iff drain sequential,
    judge_fast_iff run_for fast,
    judge_paced_iff run_for paced,
  )

  all_pass-Accepts :
      (o : DirectPlayOpts F) (drain : F) (phases : List (DirectPlayPhase F))
      → IsJudged o drain phases
      → (all_pass phases ≡ true) ↔ Accepts o.ffmpeg o.run_for drain phases
  unfolding IsJudged
  all_pass-Accepts o drain phases (inl (player, sequential, absent, e)) =
      rw e (pair-Accepts o.ffmpeg o.run_for drain player sequential absent)
  all_pass-Accepts o drain phases (inr (player, sequential, fast, paced, present, e)) =
      rw e (four-Accepts o.ffmpeg o.run_for drain player sequential fast paced present)

  same_report :
      {a b : DirectPlayReport F} {x y : Option Error}
      → ◌≡◌ {A = Run (DirectPlayReport F × Option Error)} (finished (a, x)) (finished (b, y))
      → b ≡ a
  same_report e = cc

  report_of-phases :
      (o : DirectPlayOpts F) (env : DirectEnv) (m : Media F) {rep : DirectPlayReport F}
      → report_of o env (m, none) ≡ finished (rep, none)
      → (phases : List (DirectPlayPhase F)) × (run_phases o env m (drain_rate o.drain_mbps)
          ≡ finished phases)
        × (rep ≡ full_report o env m phases)
  unfolding report_of
  report_of-phases o env m e =
      let (phases, ran, e1) =
        bind_run-finished (run_phases o env m (drain_rate o.drain_mbps)) _ e in
      (phases, ran, same_report e1)

  -- Where the file was probed as `m` with no error, a report that is made passes exactly when its
  -- phases are what the options ask for (the player and the sequential read, and the two copies
  -- exactly where there is an ffmpeg) and meet what is asked of them: no phase met an error, the
  -- player played and did not stall, the sequential read was no slower than the player drains, and
  -- each copy reached 95 % of its media time, the paced one with no stall and at most 2 s behind.
  pub run_direct_play-Accepts :
      (o : DirectPlayOpts F) (env : DirectEnv) {m : Media F} {rep : DirectPlayReport F}
      → probe_media env.stat env.output o.ffprobe ≡ (m, none)
      → run_direct_play o env ≡ finished (rep, none)
      → (rep.pass ≡ true) ↔ Accepts o.ffmpeg o.run_for rep.drain_mbps rep.phases
  unfolding run_direct_play full_report
  run_direct_play-Accepts o env {m} probed e =
      let (phases, ran, made) = report_of-phases o env m (rw probed at e) in
      rw made
        (all_pass-Accepts o (drain_rate o.drain_mbps) phases (run_phases-IsJudged o env m _ ran))
