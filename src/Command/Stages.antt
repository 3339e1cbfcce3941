-- ===== src/Command/Stages.antt =====
-- scripts/jellyfin-io-bench/main.go: `main` behind its flags, with what it runs, its report and its
-- exit code.
pub mod Complete
pub mod Kept
pub mod Passed
pub mod Transcoded
pub mod Recorded
pub mod Stored
use nixos_fleet.Base.{
  ℕ, ◌*◌, ◌^◌, ltb, ◌==◌, Bool, true, false, not, ◌&&◌, ◌||◌, List, [], ◌∷◌, ◌++◌, Option, none,
  some, if◌then◌else◌, Bytes, ascii, Error, Result, ok, err,
}
use nixos_fleet.Base.Int.{pos}
use nixos_fleet.Command.State.{
  Report, Action, ran_dns, ran_probe, ran_idle, ran_phase, ran_direct, MainEnv, Bench, Stage, on,
  exited, and_next, act, add_phase, fail_on, write_json,
}
use nixos_fleet.Command.Ids.{Ids, lookup_ids}
use nixos_fleet.Command.Options.{Options}
use nixos_fleet.Direct.Report.{DirectPlayOpts, DirectPlayReport}
use nixos_fleet.Nfs.Mounts.{FsType}
use nixos_fleet.Probe.Report.{is_type}
use nixos_fleet.Text.Cut.{equal}
use nixos_fleet.Text.Path.{join_path}
use nixos_fleet.Transcode.Phase.{PhaseOpts, PhaseResult}

abbrev pub all : Bytes
all = ascii "all"

abbrev pub wants : Bytes → Bytes → Bool
wants cmd c = equal cmd c || equal cmd all

abbrev transcode_notes : List Bytes
transcode_notes =
    ascii
      "nfs_unthrottled writes HLS as fast as QSV can go onto truenas-scale:/mnt/ssd/jellyfin/cache (original architecture)."
    ∷ ascii
        "nfs_throttled is the same dest with ffmpeg -re (realtime analogue of EnableThrottling)."
    ∷ ascii
        "tmpfs_throttled is a RAM-backed control. sda counters are the VM disk; NFS cache writes show up in nfs_delta, not sda."
    ∷ ascii "NFS reads of the 4K source happen in every transcode phase."
    ∷ []

abbrev pub bench_host : Bytes
bench_host = ascii "proxmox-applications-1"

abbrev pub is_load : Bytes → Bool
is_load cmd = equal cmd (ascii "transcode") || (equal cmd (ascii "directplay") || equal cmd all)

module _ {ℓ} {F : Type ℓ} where
  -- writeJSON on the way out of a failure, its error dropped.
  abbrev pub give_up : Options F → MainEnv F → Bench F → Stage F
  give_up o env b = exited 1 ((write_json env o.json_path b).0)

  abbrev pub take_ffmpeg : Result Bytes → Bench F → Stage F
  take_ffmpeg (err e) b = exited 1 b
  take_ffmpeg (ok p) b = on (record b { ffmpeg = p })

  unfoldable pub resolve_ffmpeg : MainEnv F → Bench F → Stage F
  resolve_ffmpeg env b = if equal b.ffmpeg [] then take_ffmpeg env.found_ffmpeg b else on b

  abbrev pub need_nfs : FsType → Bench F → Stage F
  need_nfs kind b = if not (is_type (ascii "nfs") kind) then exited 1 b else on b

  -- 3 GiB are needed for the phase on the disk.
  abbrev pub has_space : Result ℕ → Bench F → Stage F
  has_space (err e) b = exited 1 b
  has_space (ok n) b = if ltb n (3 * 2 ^ 30) then exited 1 b else on b

  abbrev pub need_space : Options F → MainEnv F → Bench F → Stage F
  need_space o env b = if o.include_disk then has_space env.avail b else on b

  -- `uid` and `gid`, with what follows.
  abbrev pub with_ids : Result Ids → Bench F → (Ids → Bench F → Stage F) → Stage F
  with_ids (err e) b next = exited 1 b
  with_ids (ok ids) b next = next ids b

  unfoldable pub ids_of : Options F → MainEnv F → Result Ids
  ids_of o env =
      if not (equal o.as_user [])
      then lookup_ids (env.user_entry o.as_user)
      else ok (record { uid = pos 0; gid = pos 0 })

  abbrev pub idle_action : Options F → Action F
  idle_action o = ran_idle o.disk_dev o.health_url o.idle_for

  abbrev pub idle_end : Options F → PhaseResult F × Option Error → Bench F → Stage F
  idle_end o (p, some e) b = exited 1 (act (idle_action o) b.report b)
  idle_end o (p, none) b = on (act (idle_action o) (add_phase p b) b)

  abbrev pub run_idle : Options F → MainEnv F → Bench F → Stage F
  run_idle o env = idle_end o (env.idle o.disk_dev o.health_url o.idle_for)

  unfoldable pub phase_opts : Options F → Ids → Bytes → Bytes → Bytes → Bool → Bool → PhaseOpts
  phase_opts o ids ffmpeg name dest realtime tmpfs = record {
    name = name;
    dest = dest;
    ffmpeg = ffmpeg;
    input = o.input;
    disk_dev = o.disk_dev;
    as_user = o.as_user;
    realtime = realtime;
    run_for = o.duration;
    tmpfs = tmpfs;
    tmpfs_size = o.tmpfs_size;
    uid = ids.uid;
    gid = ids.gid;
    health_url = o.health_url;
    nfs_mount = o.nfs_cache;
  }

  abbrev pub phase_end :
      Options F → MainEnv F → PhaseOpts → Bench F → PhaseResult F × Option Error → Stage F
  phase_end o env p b (r, none) = on (act (ran_phase p) (add_phase r b) b)
  phase_end o env p b (r, some e) = give_up o env (act (ran_phase p) (add_phase r b) b)

  -- The closure `runOne`, and the exit where it fails.
  unfoldable pub run_one :
      Options F → MainEnv F → Ids → Bytes → Bytes → Bool → Bool → Bench F → Stage F
  run_one o env ids name dest realtime tmpfs b =
      let p = phase_opts o ids b.ffmpeg name dest realtime tmpfs in
      phase_end o env p b (env.phase p)

  abbrev pub disk_phase : Options F → MainEnv F → Ids → Bench F → Stage F
  disk_phase o env ids b =
      if o.include_disk
      then run_one o env ids (ascii "disk_unthrottled") (join_path o.work_dir (ascii "disk")) false
          false b
      else on b

  abbrev pub add_notes : Bench F → Stage F
  add_notes b =
      on (record b { report = record b.report { notes = b.report.notes ++ transcode_notes } })

  -- From the idle phase on.
  unfoldable pub transcode_phases : Options F → MainEnv F → Ids → Bench F → Stage F
  transcode_phases o env ids b =
      let nfs = join_path o.nfs_cache (ascii "io-bench") in
      let tmpfs = join_path o.work_dir (ascii "tmpfs") in
      and_next (run_idle o env b) λ b.
        and_next (run_one o env ids (ascii "nfs_unthrottled") nfs false false b) λ b.
          and_next (run_one o env ids (ascii "nfs_throttled") nfs true false b) λ b.
            and_next (disk_phase o env ids b) λ b.
              and_next (run_one o env ids (ascii "tmpfs_throttled") tmpfs true true b) add_notes

  unfoldable pub transcode_stage : Options F → MainEnv F → Bench F → Stage F
  transcode_stage o env b = and_next (resolve_ffmpeg env b) λ b.
      and_next (fail_on (env.stat_error o.input) b) λ b.
        and_next (need_nfs (env.fs_type o.nfs_cache) b)
          λ b. and_next (need_space o env b) λ b. with_ids (ids_of o env) b (transcode_phases o env)

  unfoldable pub direct_opts : Options F → MainEnv F → Bytes → DirectPlayOpts F
  direct_opts o env ffmpeg = record {
    input = o.input;
    ffmpeg = ffmpeg;
    ffprobe = env.found_ffprobe ffmpeg;
    media_mount = o.nfs_media;
    run_for = o.duration;
    seek = o.seek;
    drain_mbps = o.drain_mbps;
    buffer = o.buffer_for;
    drop_cache = o.drop_cache;
  }

  abbrev pub direct_end :
      Options F
      → MainEnv F
      → DirectPlayOpts F
      → Bench F
      → DirectPlayReport F × Option Error
      → Stage F
  direct_end o env d b (r, some e) =
      give_up o env (act (ran_direct d) (record b.report { direct_play = some r }) b)
  direct_end o env d b (r, none) =
      let b' = act (ran_direct d) (record b.report { direct_play = some r }) b in
      if not r.pass then give_up o env b' else on b'

  abbrev pub run_direct : Options F → MainEnv F → Bench F → Stage F
  run_direct o env b = let d = direct_opts o env b.ffmpeg in direct_end o env d b (env.direct d)

  unfoldable pub direct_stage : Options F → MainEnv F → Bench F → Stage F
  direct_stage o env b = and_next (fail_on (env.stat_error o.input) b) λ b.
      and_next (need_nfs (env.fs_type o.nfs_media) b)
        λ b. and_next (resolve_ffmpeg env b) (run_direct o env)

  abbrev pub json_end : Bench F × Option Error → Stage F
  json_end (b, some e) = exited 1 b
  json_end (b, none) = exited 0 b

  unfoldable pub json_stage : Options F → MainEnv F → Bench F → Stage F
  json_stage o env b =
      if not (equal o.json_path []) then json_end (write_json env o.json_path b) else exited 0 b

  abbrev pub first_report : MainEnv F → Report F
  first_report env = record {
    started_at = env.started_at;
    hostname = env.hostname;
    dns = none;
    probe = none;
    direct_play = none;
    phases = [];
    notes = [];
  }

  abbrev pub first_bench : Options F → MainEnv F → Bench F
  first_bench o env = record { ffmpeg = o.ffmpeg_path; report = first_report env; actions = [] }

  abbrev pub run_dns : Options F → MainEnv F → Bench F → Bench F
  run_dns o env b = act (ran_dns o.name) (record b.report { dns = some (env.dns o.name) }) b

  abbrev pub run_probe : Options F → MainEnv F → Bench F → Bench F
  run_probe o env b =
      let probe = env.probe o.nfs_cache o.health_url o.xml_path in
      act (ran_probe o.nfs_cache o.health_url o.xml_path) (record b.report { probe = some probe }) b

  -- The stages of the command, in order.
  unfoldable pub stages : Bytes → Options F → MainEnv F → Stage F
  stages cmd o env =
      let b0 = first_bench o env in
      let b1 = if wants cmd (ascii "dns") then run_dns o env b0 else b0 in
      let b2 = if wants cmd (ascii "probe") then run_probe o env b1 else b1 in
      and_next (if wants cmd (ascii "transcode") then transcode_stage o env b2 else on b2) λ b.
        and_next (if wants cmd (ascii "directplay") then direct_stage o env b else on b)
          λ b. json_stage o env b

  unfoldable pub run_command : Bytes → Options F → MainEnv F → Stage F
  run_command cmd o env =
      if not o.force && (not (equal env.hostname bench_host) && is_load cmd)
      then exited 2 (first_bench o env)
      else if not (env.euid == 0) && (is_load cmd || equal cmd (ascii "probe"))
      then exited 2 (first_bench o env)
      else stages cmd o env

  abbrev pub main_args : List Bytes → Options F → MainEnv F → Stage F
  main_args [] o env = run_command all o env
  main_args (cmd ∷ []) o env = run_command cmd o env
  main_args (_ ∷ _ ∷ _) o env = exited 2 (first_bench o env)
