-- ===== src/Command/Stages/Passed.antt =====
-- What a stage of `main` runs where it goes on.
use mathlib.Core.List.{append-nil, append_assoc}
use nixos_fleet.Base.{
  Bool, true, false, not, ◌||◌, List, [], ◌∷◌, ◌++◌, ◌≡◌, refl, sym, subst, ◌∙◌, Option, none, some,
  any, Bytes, ascii, arith, Error, if◌then◌else◌,
}
use nixos_fleet.Command.Ids.{Ids}
use nixos_fleet.Command.Options.{Options}
use nixos_fleet.Command.Stages.{idle_action, idle_end, phase_opts, phase_end, run_one, disk_phase}
use nixos_fleet.Command.Stages.Kept.{any-append}
use nixos_fleet.Command.State.{
  Action, ran_idle, ran_phase, ran_direct, MainEnv, Bench, Stage, on, exited, and_next, act,
  add_phase,
}
use nixos_fleet.Text.Path.{join_path}
use nixos_fleet.Transcode.Phase.{PhaseOpts, PhaseResult}

abbrev gave_error {ℓ} : {A : Type ℓ} → A × Option Error → Bool
gave_error (a, none) = false
gave_error (a, some e) = true

module _ {ℓ} {F : Type ℓ} (o : Options F) (env : MainEnv F) where
  -- Whether what was run gave an error, or a direct play that did not pass.
  abbrev pub fails : Action F → Bool
  fails (ran_idle disk health run_for) = gave_error (env.idle disk health run_for)
  fails (ran_phase p) = gave_error (env.phase p)
  fails (ran_direct d) = gave_error (env.direct d) || not ((env.direct d).0).pass
  fails _ = false

  -- What the phases are asked for: the input, the device, the user, the time, the size, the URL and
  -- the mount of the flags, with the ids and the path of ffmpeg.
  abbrev pub asked : Ids → Bytes → Bytes → Bytes → Bool → Bool → Action F
  asked ids f name dest realtime tmpfs = ran_phase (record {
    name = name;
    dest = dest;
    ffmpeg = f;
    input = o.input;
    disk_dev = o.disk_dev;
    as_user = o.as_user;
    realtime = realtime;
    run_for = o.duration;
    tmpfs = tmpfs;
    tmpfs_size = o.tmpfs_size;
    uid = ids.uid;
    gid = ids.gid;
    health_url = o.health_url;
    nfs_mount = o.nfs_cache;
  })

  -- The phases on NFS without and with `-re`, on the disk where that was asked for, and on the tmpfs.
  abbrev pub nfs_phase : Ids → Bytes → Bytes → Bool → Action F
  nfs_phase ids f name realtime =
      asked ids f name (join_path o.nfs_cache (ascii "io-bench")) realtime false

  abbrev pub disk_run : Ids → Bytes → List (Action F)
  disk_run ids f =
      if o.include_disk
      then asked ids f (ascii "disk_unthrottled") (join_path o.work_dir (ascii "disk")) false false
        ∷ []
      else []

  abbrev pub tmpfs_phase : Ids → Bytes → Action F
  tmpfs_phase ids f =
      asked ids f (ascii "tmpfs_throttled") (join_path o.work_dir (ascii "tmpfs")) true true

  abbrev pub transcode_run : Ids → Bytes → List (Action F)
  transcode_run ids f =
      ran_idle o.disk_dev o.health_url o.idle_for
      ∷ nfs_phase ids f (ascii "nfs_unthrottled") false
      ∷ nfs_phase ids f (ascii "nfs_throttled") true
      ∷ (disk_run ids f ++ tmpfs_phase ids f ∷ [])

  -- A stage that goes on meets `P`, and one that has exited has not done so with 0.
  abbrev pub Passes : (Bench F → Type ℓ) → Stage F → Type ℓ
  Passes P (on b) = P b
  Passes P (exited n b) = n ≡ 0 → Unit × ⊥

  pub and_next-Passes :
      (P Q : Bench F → Type ℓ) (s : Stage F) (next : Bench F → Stage F)
      → Passes P s
      → ((b : Bench F) → P b → Passes Q (next b))
      → Passes Q (and_next s next)
  and_next-Passes P Q (on b) next h k = k b h
  and_next-Passes P Q (exited n b) next h k = h

  -- What ran behind `b`, with no failure, and the variable ffmpegPath is still that of `b`.
  abbrev pub HasRun : Bench F → List (Action F) → Bench F → Type ℓ
  HasRun b ran b' =
      (b'.actions ≡ b.actions ++ ran)
      × (b'.ffmpeg ≡ b.ffmpeg)
      × (any fails b.actions ≡ false → any fails b'.actions ≡ false)

  act-HasRun :
      (a : Action F) (b b' : Bench F)
      → b'.actions ≡ b.actions ++ a ∷ []
      → b'.ffmpeg ≡ b.ffmpeg
      → fails a ≡ false
      → HasRun b (a ∷ []) b'
  act-HasRun a b b' e f good = (e, f, λ h. rw e (any-append fails b.actions a h good))

  pub idle_end-Passes :
      (i : PhaseResult F × Option Error) (b : Bench F)
      → env.idle o.disk_dev o.health_url o.idle_for ≡ i
      → Passes (HasRun b (ran_idle o.disk_dev o.health_url o.idle_for ∷ [])) (idle_end o i b)
  idle_end-Passes (p, none) b e =
      act-HasRun (idle_action o) b (act (idle_action o) (add_phase p b) b) refl refl (rw e refl)
  idle_end-Passes (p, some x) b e = λ n. absurd (ground arith)

  phase_end-Passes :
      (p : PhaseOpts) (b : Bench F) (r : PhaseResult F × Option Error)
      → env.phase p ≡ r
      → Passes (HasRun b (ran_phase p ∷ [])) (phase_end o env p b r)
  phase_end-Passes p b (r, none) e =
      act-HasRun (ran_phase p) b (act (ran_phase p) (add_phase r b) b) refl refl (rw e refl)
  phase_end-Passes p b (r, some x) e = λ n. absurd (ground arith)

  pub run_one-Passes :
      (ids : Ids) (name dest : Bytes) (realtime tmpfs : Bool) (b : Bench F)
      → Passes
          (HasRun b (asked ids b.ffmpeg name dest realtime tmpfs ∷ []))
          (run_one o env ids name dest realtime tmpfs b)
  unfolding run_one phase_opts
  run_one-Passes ids name dest realtime tmpfs b =
      phase_end-Passes (phase_opts o ids b.ffmpeg name dest realtime tmpfs) b _ refl

  if-Passes :
      (P : List (Action F) → Bench F → Type ℓ) (c : Bool) (x y : List (Action F)) (s t : Stage F)
      → Passes (P x) s
      → Passes (P y) t
      → Passes (P (if c then x else y)) (if c then s else t)
  if-Passes P true x y s t h k = h
  if-Passes P false x y s t h k = k

  pub disk_phase-Passes :
      (ids : Ids) (b : Bench F) → Passes (HasRun b (disk_run ids b.ffmpeg)) (disk_phase o env ids b)
  disk_phase-Passes ids b =
      if-Passes (HasRun b) o.include_disk _ [] _ (on b) (run_one-Passes ids _ _ _ _ b)
        (sym (append-nil b.actions), refl, λ h. h)

  HasRun-trans :
      (b b' b'' : Bench F) (xs ys : List (Action F))
      → HasRun b xs b'
      → HasRun b' ys b''
      → HasRun b (xs ++ ys) b''
  HasRun-trans b b' b'' xs ys (e, f, g) (e', f', g') =
      (e' ∙ rw (e, append_assoc) refl, f' ∙ f, λ h. g' (g h))

  -- What follows runs with the path of ffmpeg that is set by then.
  then-Passes :
      (b b' : Bench F) (xs : List (Action F)) (ys : Bytes → List (Action F)) (s : Stage F)
      → HasRun b xs b'
      → Passes (HasRun b' (ys b'.ffmpeg)) s
      → Passes (HasRun b (xs ++ ys b.ffmpeg)) s
  then-Passes b b' xs ys (on b'') r h =
      HasRun-trans b b' b'' xs (ys b.ffmpeg) r (subst (λ f. HasRun b' (ys f) b'') (r.1) h)
  then-Passes b b' xs ys (exited n b'') r h = h

  pub steps-Passes :
      (b : Bench F) (xs : List (Action F)) (ys : Bytes → List (Action F)) (s : Stage F)
      (next : Bench F → Stage F)
      → Passes (HasRun b xs) s
      → ((b' : Bench F) → Passes (HasRun b' (ys b'.ffmpeg)) (next b'))
      → Passes (HasRun b (xs ++ ys b.ffmpeg)) (and_next s next)
  steps-Passes b xs ys (on b') next h k = then-Passes b b' xs ys (next b') h (k b')
  steps-Passes b xs ys (exited n b') next h k = h
