-- ===== src/Command/Stages/Transcoded.antt =====
-- What the stage of the transcode runs where it goes on.
use mathlib.Core.List.{append-nil}
use nixos_fleet.Base.{
  Bool, true, false, List, [], ◌∷◌, ◌++◌, ◌≡◌, ◌≢◌, ◌⊎◌, inl, inr, refl, sym, subst, ◌∙◌, Option,
  none, some, any, Bytes, ascii, arith, Error, Result, ok, err, if◌then◌else◌,
}
use nixos_fleet.Command.Ids.{Ids}
use nixos_fleet.Command.Options.{Options}
use nixos_fleet.Command.Stages.{
  take_ffmpeg, resolve_ffmpeg, need_nfs, need_space, with_ids, ids_of, transcode_phases,
  transcode_stage,
}
use nixos_fleet.Command.State.{
  Action, ran_idle, MainEnv, Bench, Stage, on, exited, and_next, fail_on,
}
use nixos_fleet.Nfs.Mounts.{FsType}
use nixos_fleet.Text.Cut.{equal, equal_iff}
use nixos_fleet.Command.Stages.Passed.{
  fails, nfs_phase, disk_run, tmpfs_phase, transcode_run, Passes, and_next-Passes, HasRun,
  idle_end-Passes, run_one-Passes, disk_phase-Passes, steps-Passes,
}

module _ {ℓ} {F : Type ℓ} (o : Options F) (env : MainEnv F) where
  abbrev tail_run : Ids → Bytes → List (Action F)
  tail_run ids f = disk_run o env ids f ++ tmpfs_phase o env ids f ∷ []

  abbrev throttled_run : Ids → Bytes → List (Action F)
  throttled_run ids f = nfs_phase o env ids f (ascii "nfs_throttled") true ∷ tail_run ids f

  abbrev nfs_run : Ids → Bytes → List (Action F)
  nfs_run ids f = nfs_phase o env ids f (ascii "nfs_unthrottled") false ∷ throttled_run ids f

  transcode_phases-Passes :
      (ids : Ids) (b : Bench F)
      → Passes o env
          (HasRun o env b (transcode_run o env ids b.ffmpeg))
          (transcode_phases o env ids b)
  unfolding transcode_phases
  transcode_phases-Passes ids b =
      steps-Passes o env b (ran_idle o.disk_dev o.health_url o.idle_for ∷ []) (nfs_run ids) _ _
        (idle_end-Passes o env _ b refl)
        λ b.
          steps-Passes o env b (nfs_phase o env ids b.ffmpeg (ascii "nfs_unthrottled") false ∷ [])
            (throttled_run ids) _ _ (run_one-Passes o env ids _ _ _ _ b)
            λ b.
              steps-Passes o env b (nfs_phase o env ids b.ffmpeg (ascii "nfs_throttled") true ∷ [])
                (tail_run ids) _ _ (run_one-Passes o env ids _ _ _ _ b)
                λ b.
                  steps-Passes o env b (disk_run o env ids b.ffmpeg)
                    (λ f. tmpfs_phase o env ids f ∷ []) _ _ (disk_phase-Passes o env ids b)
                    λ b.
                      steps-Passes o env b (tmpfs_phase o env ids b.ffmpeg ∷ []) (λ f. []) _ _
                        (run_one-Passes o env ids _ _ _ _ b)
                        λ b. (sym (append-nil b.actions), refl, λ h. h)

  -- The path `g` that `f` stands for: itself where it is not empty, and else the one that is found.
  abbrev pub Resolves : Bytes → Bytes → Type 0
  Resolves f g = ((f ≢ []) × (g ≡ f)) ⊎ ((f ≡ []) × (env.found_ffmpeg ≡ ok g))

  -- With the ids and the path that the phases were given.
  abbrev pub Transcoded : Bench F → Bench F → Type ℓ
  Transcoded b b' =
      (ids : Ids) × (ids_of o env ≡ ok ids)
      × Resolves b.ffmpeg b'.ffmpeg
      × (b'.actions ≡ b.actions ++ transcode_run o env ids b'.ffmpeg)
      × (any (fails o env) b.actions ≡ false → any (fails o env) b'.actions ≡ false)

  -- The checks run nothing and leave the variable ffmpegPath.
  abbrev pub Same : Bench F → Bench F → Type ℓ
  Same b b' = (b'.actions ≡ b.actions) × (b'.ffmpeg ≡ b.ffmpeg)

  abbrev pub Resolved : Bench F → Bench F → Type ℓ
  Resolved b b' = (b'.actions ≡ b.actions) × Resolves b.ffmpeg b'.ffmpeg

  take_ffmpeg-Passes :
      (b : Bench F) (r : Result Bytes)
      → b.ffmpeg ≡ []
      → env.found_ffmpeg ≡ r
      → Passes o env (Resolved b) (take_ffmpeg r b)
  take_ffmpeg-Passes b (err e) none_ found = λ n. absurd (ground arith)
  take_ffmpeg-Passes b (ok p) none_ found = (refl, inr (none_, found))

  if-Passes :
      (P : Bench F → Type ℓ) (c : Bool) (s t : Stage F)
      → (c ≡ true → Passes o env P s)
      → (c ≡ false → Passes o env P t)
      → Passes o env P (if c then s else t)
  if-Passes P true s t h k = h refl
  if-Passes P false s t h k = k refl

  pub resolve_ffmpeg-Passes : (b : Bench F) → Passes o env (Resolved b) (resolve_ffmpeg env b)
  unfolding resolve_ffmpeg
  resolve_ffmpeg-Passes b =
      if-Passes (Resolved b) (equal b.ffmpeg []) (take_ffmpeg env.found_ffmpeg b) (on b)
        (λ e. take_ffmpeg-Passes b env.found_ffmpeg ((equal_iff b.ffmpeg []).0 e) refl)
        λ e. (refl, inl ((λ x. true-ne-false ((equal_iff b.ffmpeg []).1 x) e), refl))
    where
      true-ne-false : {c : Bool} → c ≡ true → c ≡ false → ⊥
      true-ne-false x y = ground arith

  pub fail_on-Passes : (b : Bench F) (e : Option Error) → Passes o env (Same b) (fail_on e b)
  fail_on-Passes b none = (refl, refl)
  fail_on-Passes b (some e) = λ n. absurd (ground arith)

  pub need_nfs-Passes : (b : Bench F) (kind : FsType) → Passes o env (Same b) (need_nfs kind b)
  need_nfs-Passes b kind = ground arith

  need_space-Passes : (b : Bench F) → Passes o env (Same b) (need_space o env b)
  need_space-Passes b = ground arith

  HasRun-Transcoded :
      (b b0 : Bench F) (ids : Ids) (s : Stage F)
      → ids_of o env ≡ ok ids
      → Resolved b0 b
      → Passes o env (HasRun o env b (transcode_run o env ids b.ffmpeg)) s
      → Passes o env (Transcoded b0) s
  HasRun-Transcoded b b0 ids (on b') i (same, r) (e, k, g) =
      (ids, i, subst (Resolves b0.ffmpeg) (sym k) r, e ∙ rw (same, k) refl, λ h. g (rw same h))
  HasRun-Transcoded b b0 ids (exited n b') i same h = h

  with_ids-Passes :
      (b b0 : Bench F) (r : Result Ids)
      → ids_of o env ≡ r
      → Resolved b0 b
      → Passes o env (Transcoded b0) (with_ids r b (transcode_phases o env))
  with_ids-Passes b b0 (err e) i same = λ n. absurd (ground arith)
  with_ids-Passes b b0 (ok ids) i same =
      HasRun-Transcoded b b0 ids _ i same (transcode_phases-Passes ids b)

  -- A check between what has been shown of the bench so far and what follows.
  pub after_check :
      (P Q : Bench F → Type ℓ) (b : Bench F) (s : Stage F) (next : Bench F → Stage F)
      → ((b' : Bench F) → Same b b' → P b')
      → Passes o env (Same b) s
      → ((b' : Bench F) → P b' → Passes o env Q (next b'))
      → Passes o env Q (and_next s next)
  after_check P Q b (on b') next k e h = h b' (k b' e)
  after_check P Q b (exited n b') next k e h = e

  pub Resolved-Same : (b0 b b' : Bench F) → Resolved b0 b → Same b b' → Resolved b0 b'
  Resolved-Same b0 b b' (e, r) (e', f) = (e' ∙ e, subst (Resolves b0.ffmpeg) (sym f) r)

  pub transcode_stage-Passes :
      (b0 : Bench F) → Passes o env (Transcoded b0) (transcode_stage o env b0)
  unfolding transcode_stage
  transcode_stage-Passes b0 =
      let P = Resolved b0 in
      let Q = Transcoded b0 in
      and_next-Passes o env P Q _ _ (resolve_ffmpeg-Passes b0) λ b r.
        after_check P Q b _ _ (λ b'. Resolved-Same b0 b b' r)
          (fail_on-Passes b (env.stat_error o.input))
          λ b r.
            after_check P Q b _ _ (λ b'. Resolved-Same b0 b b' r)
              (need_nfs-Passes b (env.fs_type o.nfs_cache))
              λ b r.
                after_check P Q b _ _ (λ b'. Resolved-Same b0 b b' r) (need_space-Passes b)
                  λ b r. with_ids-Passes b b0 (ids_of o env) refl r
