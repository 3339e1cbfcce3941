-- ===== src/Command/Stages/Stored.antt =====
-- What each stage of `main` keeps.
use mathlib.Core.List.{append-nil}
use nixos_fleet.Base.{
  Bool, not, [], ◌≡◌, refl, Option, none, some, Bytes, arith, Error, Result, ok, err,
}
use nixos_fleet.Command.Ids.{Ids}
use nixos_fleet.Command.State.{
  ran_phase, ran_direct, MainEnv, Bench, on, exited, act, add_phase, fail_on, write_json,
}
use nixos_fleet.Command.Stages.Kept.{
  Good, IsTold, Keeps, if-Keeps, and_next-Keeps, exit-Keeps, act-Good, write_json-Keeps,
}
use nixos_fleet.Command.Options.{Options}
use nixos_fleet.Command.Stages.{
  give_up, resolve_ffmpeg, need_nfs, need_space, with_ids, ids_of, idle_action, idle_end, run_idle,
  phase_opts, phase_end, run_one, disk_phase, transcode_phases, transcode_stage, direct_opts,
  direct_end, direct_stage, json_end, json_stage,
}
use nixos_fleet.Direct.Report.{DirectPlayOpts, DirectPlayReport}
use nixos_fleet.Nfs.Mounts.{FsType}
use nixos_fleet.Text.Cut.{equal}
use nixos_fleet.Transcode.Phase.{PhaseOpts, PhaseResult}

module _ {ℓ} {F : Type ℓ} (env : MainEnv F) where
  give_up-Keeps : (o : Options F) (b : Bench F) → Good env b → Keeps env (give_up o env b)
  give_up-Keeps o b h = write_json-Keeps env o.json_path b h

  resolve_ffmpeg-Keeps : (b : Bench F) → Good env b → Keeps env (resolve_ffmpeg env b)
  unfolding resolve_ffmpeg
  resolve_ffmpeg-Keeps b h = ground (arith, exit-Keeps env b h)

  fail_on-Keeps : (e : Option Error) (b : Bench F) → Good env b → Keeps env (fail_on e b)
  fail_on-Keeps none b h = h
  fail_on-Keeps (some e) b h = exit-Keeps env b h

  need_nfs-Keeps : (kind : FsType) (b : Bench F) → Good env b → Keeps env (need_nfs kind b)
  need_nfs-Keeps kind b h = ground (arith, exit-Keeps env b h)

  need_space-Keeps : (o : Options F) (b : Bench F) → Good env b → Keeps env (need_space o env b)
  need_space-Keeps o b h = ground (arith, exit-Keeps env b h)

  idle_end-Keeps :
      (o : Options F) (i : PhaseResult F × Option Error) (b : Bench F)
      → env.idle o.disk_dev o.health_url o.idle_for ≡ i
      → Good env b
      → Keeps env (idle_end o i b)
  idle_end-Keeps o (p, none) b e h =
      act-Good env (idle_action o) (add_phase p b) b h (rw e refl) refl
  idle_end-Keeps o (p, some x) b e h =
      exit-Keeps env (act (idle_action o) b.report b)
        (act-Good env (idle_action o) b.report b h (rw (e, append-nil) refl) refl)

  phase_end-Keeps :
      (o : Options F) (p : PhaseOpts) (b : Bench F) (r : PhaseResult F × Option Error)
      → env.phase p ≡ r
      → Good env b
      → Keeps env (phase_end o env p b r)
  phase_end-Keeps o p b (r, none) e h =
      act-Good env (ran_phase p) (add_phase r b) b h (rw e refl) refl
  phase_end-Keeps o p b (r, some x) e h =
      give_up-Keeps o _ (act-Good env (ran_phase p) (add_phase r b) b h (rw e refl) refl)

  run_one-Keeps :
      (o : Options F) (ids : Ids) (name dest : Bytes) (realtime tmpfs : Bool) (b : Bench F)
      → Good env b
      → Keeps env (run_one o env ids name dest realtime tmpfs b)
  unfolding run_one
  run_one-Keeps o ids name dest realtime tmpfs b h =
      let p = phase_opts o ids b.ffmpeg name dest realtime tmpfs in
      phase_end-Keeps o p b (env.phase p) refl h

  disk_phase-Keeps :
      (o : Options F) (ids : Ids) (b : Bench F) → Good env b → Keeps env (disk_phase o env ids b)
  disk_phase-Keeps o ids b h =
      if-Keeps env o.include_disk _ (on b) (run_one-Keeps o ids _ _ _ _ b h) h

  transcode_phases-Keeps :
      (o : Options F) (ids : Ids) (b : Bench F)
      → Good env b
      → Keeps env (transcode_phases o env ids b)
  unfolding transcode_phases
  transcode_phases-Keeps o ids b h =
      and_next-Keeps env (run_idle o env b) _ (idle_end-Keeps o _ b refl h) λ b h.
        and_next-Keeps env _ _ (run_one-Keeps o ids _ _ _ _ b h) λ b h.
          and_next-Keeps env _ _ (run_one-Keeps o ids _ _ _ _ b h) λ b h.
            and_next-Keeps env _ _ (disk_phase-Keeps o ids b h)
              λ b h. and_next-Keeps env _ _ (run_one-Keeps o ids _ _ _ _ b h) λ b h. h

  with_ids-Keeps :
      (o : Options F) (r : Result Ids) (b : Bench F)
      → Good env b
      → Keeps env (with_ids r b (transcode_phases o env))
  with_ids-Keeps o (err e) b h = exit-Keeps env b h
  with_ids-Keeps o (ok ids) b h = transcode_phases-Keeps o ids b h

  pub transcode_stage-Keeps :
      (o : Options F) (b : Bench F) → Good env b → Keeps env (transcode_stage o env b)
  unfolding transcode_stage
  transcode_stage-Keeps o b h = and_next-Keeps env _ _ (resolve_ffmpeg-Keeps b h) λ b h.
      and_next-Keeps env _ _ (fail_on-Keeps (env.stat_error o.input) b h) λ b h.
        and_next-Keeps env _ _ (need_nfs-Keeps (env.fs_type o.nfs_cache) b h) λ b h.
          and_next-Keeps env _ _ (need_space-Keeps o b h) λ b h. with_ids-Keeps o (ids_of o env) b h

  direct_end-Keeps :
      (o : Options F) (d : DirectPlayOpts F) (b : Bench F) (r : DirectPlayReport F × Option Error)
      → env.direct d ≡ r
      → Good env b
      → Keeps env (direct_end o env d b r)
  direct_end-Keeps o d b (r, some x) e h =
      give_up-Keeps o _ (
        act-Good env (ran_direct d) (record b.report { direct_play = some r }) b h (rw e refl) refl)
  direct_end-Keeps o d b (r, none) e h =
      let ran =
        act-Good env (ran_direct d) (record b.report { direct_play = some r }) b h (rw e refl)
          refl in
      if-Keeps env (not r.pass) (give_up o env _) (on _) (give_up-Keeps o _ ran) ran

  pub direct_stage-Keeps :
      (o : Options F) (b : Bench F) → Good env b → Keeps env (direct_stage o env b)
  unfolding direct_stage
  direct_stage-Keeps o b h =
      and_next-Keeps env _ _ (fail_on-Keeps (env.stat_error o.input) b h) λ b h.
        and_next-Keeps env _ _ (need_nfs-Keeps (env.fs_type o.nfs_media) b h) λ b h.
          and_next-Keeps env _ _ (resolve_ffmpeg-Keeps b h)
            λ b h. direct_end-Keeps o (direct_opts o env b.ffmpeg) b _ refl h

  json_end-Keeps : (r : Bench F × Option Error) → IsTold env (r.0) → Keeps env (json_end r)
  json_end-Keeps (b, none) h = h
  json_end-Keeps (b, some e) h = h

  pub json_stage-Keeps : (o : Options F) (b : Bench F) → Good env b → Keeps env (json_stage o env b)
  unfolding json_stage
  json_stage-Keeps o b h =
      if-Keeps env (not (equal o.json_path [])) _ (exited 0 b)
        (json_end-Keeps (write_json env o.json_path b) (write_json-Keeps env o.json_path b h))
        (exit-Keeps env b h)
