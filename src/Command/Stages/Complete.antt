-- ===== src/Command/Stages/Complete.antt =====
-- What has been run where `main` exits with 0.
use mathlib.Core.List.{append-nil, append_assoc}
use nixos_fleet.Base.{
  ◌==◌, Bool, true, false, not, ◌&&◌, ◌||◌, List, [], ◌∷◌, ◌++◌, ◌≡◌, ◌≢◌, ◌⊎◌, inl, inr, refl, sym,
  subst, ◌∙◌, Option, none, some, any, Bytes, ascii, arith, Error, ok, if◌then◌else◌,
}
use nixos_fleet.Base.Int.{pos}
use nixos_fleet.Command.Ids.{Ids, lookup_ids}
use nixos_fleet.Command.Options.{Options}
use nixos_fleet.Command.Stages.{
  all, ids_of, direct_opts, run_direct, direct_end, direct_stage, json_stage, first_bench,
  bench_host, is_load, run_dns, run_probe, run_command, stages, main_args,
}
use nixos_fleet.Command.Stages.Passed.{Passes, fails, transcode_run}
use nixos_fleet.Command.Stages.Transcoded.{
  Resolves, Resolved, Same, Transcoded, resolve_ffmpeg-Passes, fail_on-Passes, need_nfs-Passes,
  after_check, transcode_stage-Passes,
}
use nixos_fleet.Command.Stages.Kept.{any-append}
use nixos_fleet.Command.State.{
  Report, Action, ran_dns, ran_probe, ran_direct, wrote_json, MainEnv, Bench, Stage, on, exited,
  and_next, act, write_json,
}
use nixos_fleet.Direct.Report.{DirectPlayReport}
use nixos_fleet.Text.Cut.{equal, equal_iff}

module _ {ℓ} {F : Type ℓ} (o : Options F) (env : MainEnv F) where
  -- What the direct play is asked for: the flags, the path of ffmpeg and the ffprobe beside it.
  abbrev pub asked_play : Bytes → Action F
  asked_play f = ran_direct (record {
    input = o.input;
    ffmpeg = f;
    ffprobe = env.found_ffprobe f;
    media_mount = o.nfs_media;
    run_for = o.duration;
    seek = o.seek;
    drain_mbps = o.drain_mbps;
    buffer = o.buffer_for;
    drop_cache = o.drop_cache;
  })

  abbrev Played : Bench F → Bench F → Type ℓ
  Played b b' =
      Resolves o env b.ffmpeg b'.ffmpeg
      × (b'.actions ≡ b.actions ++ asked_play b'.ffmpeg ∷ [])
      × (any (fails o env) b.actions ≡ false → any (fails o env) b'.actions ≡ false)

  judged-Passes :
      (P : Bench F → Type ℓ) (c : Bool) (x b : Bench F)
      → (c ≡ true → P b)
      → Passes o env P (if not c then exited 1 x else on b)
  judged-Passes P true x b h = h refl
  judged-Passes P false x b h = λ n. absurd (ground arith)

  direct_end-Passes :
      (b b0 : Bench F) (r : DirectPlayReport F × Option Error)
      → env.direct (direct_opts o env b.ffmpeg) ≡ r
      → Resolved o env b0 b
      → Passes o env (Played b0) (direct_end o env (direct_opts o env b.ffmpeg) b r)
  unfolding direct_opts
  direct_end-Passes b b0 (r, some x) e same = λ n. absurd (ground arith)
  direct_end-Passes b b0 (r, none) e (same, found) =
      let d = direct_opts o env b.ffmpeg in
      judged-Passes (Played b0) r.pass _
        (act (ran_direct d) (record b.report { direct_play = some r }) b)
        λ passed. (
          found,
          rw same refl,
          λ h. any-append (fails o env) b.actions (ran_direct d) (rw same h) (rw (e, passed) refl),
        )

  Same-trans : (b0 b b' : Bench F) → Same o env b0 b → Same o env b b' → Same o env b0 b'
  Same-trans b0 b b' (e, f) (e', f') = (e' ∙ e, f' ∙ f)

  Same-Resolved : (b0 b b' : Bench F) → Same o env b0 b → Resolved o env b b' → Resolved o env b0 b'
  Same-Resolved b0 b b' (e, f) (e', r) = (e' ∙ e, subst (λ x. Resolves o env x b'.ffmpeg) f r)

  Resolved-Played :
      (b0 b : Bench F) (s : Stage F)
      → Same o env b0 b
      → Passes o env (Resolved o env b) s
      → Passes o env (Played b0) (and_next s (run_direct o env))
  Resolved-Played b0 b (on b') e r = direct_end-Passes b' b0 _ refl (Same-Resolved b0 b b' e r)
  Resolved-Played b0 b (exited n b') e h = h

  direct_stage-Passes : (b0 : Bench F) → Passes o env (Played b0) (direct_stage o env b0)
  unfolding direct_stage
  direct_stage-Passes b0 =
      let S = Same o env b0 in
      after_check o env S (Played b0) b0 _ _ (λ b e. e)
        (fail_on-Passes o env b0 (env.stat_error o.input))
        λ b e.
          after_check o env S (Played b0) b _ _ (λ b'. Same-trans b0 b b' e)
            (need_nfs-Passes o env b (env.fs_type o.nfs_media))
            λ b e. Resolved-Played b0 b _ e (resolve_ffmpeg-Passes o env b)

  abbrev pub written : Bench F → List (Action F)
  written b = if equal o.json_path [] then [] else wrote_json b.report ∷ []

  -- An exit with 0 meets `P`.
  abbrev Ends : (Bench F → Type ℓ) → Stage F → Type ℓ
  Ends P (on b) = P b
  Ends P (exited n b) = n ≡ 0 → P b

  and_next-Ends :
      (P Q : Bench F → Type ℓ) (s : Stage F) (next : Bench F → Stage F)
      → Passes o env P s
      → ((b : Bench F) → P b → Ends Q (next b))
      → Ends Q (and_next s next)
  and_next-Ends P Q (on b) next h k = k b h
  and_next-Ends P Q (exited n b) next h k = λ e. absurd ((h e).1)

  abbrev Written : Bench F → Bench F → Type ℓ
  Written b b' =
      (b'.actions ≡ b.actions ++ written b') × (b'.report ≡ b.report) × (b'.ffmpeg ≡ b.ffmpeg)

  json_stage-Ends : (b : Bench F) → Ends (Written b) (json_stage o env b)
  unfolding json_stage write_json
  json_stage-Ends b = ground (arith, append-nil b.actions)

  -- The ids of the flags' user, and those of root where there is none.
  abbrev pub AreUserIds : Ids → Type 0
  AreUserIds ids =
      ((o.as_user ≡ []) × (ids ≡ record { uid = pos 0; gid = pos 0 }))
      ⊎ ((o.as_user ≢ []) × (lookup_ids (env.user_entry o.as_user) ≡ ok ids))

  ids_of-AreUserIds : (ids : Ids) → ids_of o env ≡ ok ids → AreUserIds ids
  unfolding ids_of
  ids_of-AreUserIds ids e = ground (arith, equal_iff o.as_user [])

  -- What ran in all, with what it was asked for.
  abbrev pub IsComplete : Bench F → Type ℓ
  IsComplete b =
      (ids : Ids) × AreUserIds ids
      × Resolves o env o.ffmpeg_path b.ffmpeg
      × (any (fails o env) b.actions ≡ false)
      × (b.actions
          ≡ ran_dns o.name
            ∷ ran_probe o.nfs_cache o.health_url o.xml_path
            ∷ (transcode_run o env ids b.ffmpeg ++ (asked_play b.ffmpeg ∷ written b)))

  -- The path that is resolved stays.
  Resolves-again : {f g h : Bytes} → Resolves o env f g → Resolves o env g h → h ≡ g
  Resolves-again (inl (n, e)) (inl (m, k)) = k
  Resolves-again (inl (n, e)) (inr (m, k)) = absurd (n (ground (arith, e, m)))
  Resolves-again (inr (n, e)) (inl (m, k)) = k
  Resolves-again (inr (n, e)) (inr (m, k)) = ground (arith, e, k)

  Ends-map :
      (P Q : Bench F → Type ℓ) (s : Stage F) → ((b : Bench F) → P b → Q b) → Ends P s → Ends Q s
  Ends-map P Q (on b) k h = k b h
  Ends-map P Q (exited n b) k h = λ e. k b (h e)

  refused-Ends :
      (P : Bench F → Type ℓ) (c : Bool) (b : Bench F) (s : Stage F)
      → Ends P s
      → Ends P (if c then exited 2 b else s)
  refused-Ends P true b s h = λ e. absurd (ground arith)
  refused-Ends P false b s h = h

  unfailed :
      (c : Bool) (xs : List (Action F)) (r : Report F)
      → any (fails o env) xs ≡ false
      → any (fails o env) (xs ++ (if c then [] else wrote_json r ∷ [])) ≡ false
  unfailed true xs r h = rw append-nil h
  unfailed false xs r h = any-append (fails o env) xs (wrote_json r) h refl

  Written-IsComplete :
      (b0 b b' : Bench F)
      → b0.actions ≡ ran_dns o.name ∷ ran_probe o.nfs_cache o.health_url o.xml_path ∷ []
      → b0.ffmpeg ≡ o.ffmpeg_path
      → Transcoded o env b0 b
      → Played b b'
      → (b'' : Bench F) → Written b' b''
      → IsComplete b''
  Written-IsComplete b0 b b' start path (ids, i, r, e, g) (r', e', g') b'' (e'', same, f) =
      let good : any (fails o env) b'.actions ≡ false = g' (g (rw start refl)) in
      let kept : b'.ffmpeg ≡ b.ffmpeg = Resolves-again r r' in
      let here : b''.ffmpeg ≡ b.ffmpeg = f ∙ kept in
      (
        ids,
        ids_of-AreUserIds ids i,
        subst (λ x. Resolves o env x b''.ffmpeg) path
            (subst (Resolves o env b0.ffmpeg) (sym here) r),
        rw e'' (unfailed (equal o.json_path []) b'.actions b''.report good),
        e'' ∙ rw (e', e, start, kept, here, append_assoc) refl,
      )

  stages-Ends : Ends IsComplete (stages all o env)
  unfolding stages equal
  stages-Ends =
      let b0 = run_probe o env (run_dns o env (first_bench o env)) in
      and_next-Ends (Transcoded o env b0) IsComplete _ _ (transcode_stage-Passes o env b0) λ b h.
        and_next-Ends (Played b) IsComplete _ _ (direct_stage-Passes b) λ b' h'.
          Ends-map (Written b') IsComplete _ (Written-IsComplete b0 b b' refl refl h h')
            (json_stage-Ends b')

  run_command-Ends : Ends IsComplete (run_command all o env)
  unfolding run_command
  run_command-Ends =
      let load = not o.force && (not (equal env.hostname bench_host) && is_load all) in
      let root = not (env.euid == 0) && (is_load all || equal all (ascii "probe")) in
      let b0 = first_bench o env in
      refused-Ends IsComplete load b0 (if root then exited 2 b0 else stages all o env)
        (refused-Ends IsComplete root b0 (stages all o env) stages-Ends)

  -- Where the bench, run with no command or with `all`, exits with 0, it has measured everything,
  -- in this order: the DNS of the flags' host, the probe of their mount, URL and file, the idle
  -- phase, the two phases on NFS, that on the disk where it was asked for, that on the tmpfs, and
  -- the direct play, each with all its options from the flags, the ids of their user, and the ffmpeg
  -- that they name, or where they name none the one that was found. No phase gave an error, the
  -- direct play passed, and where a path was given the report was handed to be written at the end.
  pub main_args-IsComplete :
      (b : Bench F) (args : List Bytes)
      → (args ≡ []) ⊎ (args ≡ all ∷ [])
      → main_args args o env ≡ exited 0 b
      → IsComplete b
  main_args-IsComplete b args which e = elim which [
    | inl none_ ↦ subst (Ends IsComplete) (rw none_ at e) run_command-Ends refl
    | inr all_ ↦ subst (Ends IsComplete) (rw all_ at e) run_command-Ends refl
  ]
