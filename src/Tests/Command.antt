-- ===== src/Tests/Command.antt =====
-- main.go's commands at small inputs.
use nixos_fleet.Base.{
  ◌^◌, true, [], ◌∷◌, ◌≡◌, inl, refl, none, some, if◌then◌else◌, Bytes, ascii, system, ok, err,
  List, Error, Option, ℕ,
}
use nixos_fleet.Base.Float.{Micros, micros_float}
use nixos_fleet.Command.Guards.{actions_of}
use nixos_fleet.Command.Options.{Options, defaults}
use nixos_fleet.Command.Stages.{
  bench_host, first_bench, main_args, run_command, stages, transcode_stage, transcode_phases,
  direct_stage, direct_opts, run_one, resolve_ffmpeg, ids_of, phase_opts, json_stage,
}
use nixos_fleet.Command.Stages.Kept.{IsRecorded, IsWrittenLast}
use nixos_fleet.Command.Stages.Complete.{IsComplete, main_args-IsComplete}
use nixos_fleet.Command.Stages.Recorded.{main_args-IsRecorded}
use nixos_fleet.Command.State.{
  MainEnv, Action, Bench, Stage, on, ran_idle, ran_phase, wrote_json, exited, write_json,
}
use nixos_fleet.Direct.Report.{first_report}
use nixos_fleet.Dns.{run_dns}
use nixos_fleet.Nfs.Mounts.{named}
use nixos_fleet.Probe.Report.{run_probe}
use nixos_fleet.Tests.Dns.{host, resolve, fetch}
use nixos_fleet.Tests.Probe.{env as probe_env}
use nixos_fleet.Text.Cut.{equal, has_prefix, cut_prefix, split, join}
use nixos_fleet.Text.Path.{clean_parts, clean_path, join_path}
use nixos_fleet.Transcode.Phase.{PhaseOpts, PhaseResult, no_result}

abbrev idle : PhaseResult Micros
idle = no_result (ascii "idle") (ascii "/") (named (ascii "ext4")) true

-- Of the phases the throttled one on NFS fails.
abbrev phase : PhaseOpts → PhaseResult Micros × Option Error
phase o = (
  no_result o.name o.dest (named (ascii "nfs")) o.realtime,
  if equal o.name (ascii "nfs_throttled") then some (system (ascii "EIO")) else none,
)

abbrev pub env : MainEnv Micros
env = record {
  started_at = ascii "2026-01-01T00:00:00Z";
  hostname = bench_host;
  euid = 0;
  stat_error = λ path. none;
  found_ffmpeg = ok (ascii "/f");
  found_ffprobe = λ ffmpeg. ascii "/p";
  fs_type = λ path. named (ascii "nfs");
  avail = ok (2 ^ 40);
  user_entry = λ user. err (system (ascii "user: unknown user"));
  dns = λ name. run_dns host resolve fetch name;
  probe = λ cache health xml. run_probe probe_env cache health;
  idle = λ disk health run_for. (idle, none);
  phase = phase;
  direct = λ o. (first_report o, none);
  marshal = λ r. ok (ascii "{}");
  write_file = λ path text. none;
}

abbrev flags : Options Micros
flags = record defaults { json_path = ascii "r.json"; ffmpeg_path = ascii "/f" }

-- What is run is told by these names.
abbrev name_of : Action Micros → Bytes
name_of (ran_idle disk health run_for) = ascii "idle"
name_of (ran_phase o) = o.name
name_of (wrote_json r) = ascii "json"
name_of _ = []

abbrev names : List (Action Micros) → List Bytes
names [] = []
names (a ∷ rest) = name_of a ∷ names rest

-- The second phase fails, and the third is not run; the report is written.
main_args-transcode :
    names (actions_of (main_args (ascii "transcode" ∷ []) flags env))
    ≡ ascii "idle" ∷ ascii "nfs_unthrottled" ∷ ascii "nfs_throttled" ∷ ascii "json" ∷ []
unfolding run_command stages transcode_stage transcode_phases run_one resolve_ffmpeg ids_of
    phase_opts json_stage write_json defaults equal
main_args-transcode = refl

main_args-IsRecorded_example :
    (n : ℕ) × (b : Bench Micros) × (main_args (ascii "transcode" ∷ []) flags env ≡ exited n b)
    × IsRecorded env b
    × IsWrittenLast env b
main_args-IsRecorded_example = main_args-IsRecorded env (ascii "transcode" ∷ []) flags

-- A word that is no command measures nothing and exits with 0.
main_args-unknown :
    main_args (ascii "transcod" ∷ []) (record flags { json_path = [] }) env
    ≡ exited 0 (first_bench flags env)
unfolding run_command stages json_stage defaults equal
main_args-unknown = refl

-- Elements that say nothing are dropped, and `..` takes away the one before it.
join_path-clean : join_path (ascii "/mnt/../nfs//.") (ascii "io-bench") ≡ ascii "/nfs/io-bench"
unfolding join_path clean_path clean_parts has_prefix cut_prefix split join equal
join_path-clean = refl

join_path-above : join_path (ascii "../..") (ascii "disk") ≡ ascii "../../disk"
unfolding join_path clean_path clean_parts has_prefix cut_prefix split join equal
join_path-above = refl

-- An environment in which all goes well.
abbrev calm : MainEnv Micros
calm = record env {
  phase = λ o. (no_result o.name o.dest (named (ascii "nfs")) o.realtime, none);
  direct = λ o. (record (first_report o) { pass = true }, none);
}

abbrev bench_in : Stage Micros → Bench Micros
bench_in (on b) = b
bench_in (exited n b) = b

abbrev whole : Bench Micros
whole = bench_in (main_args [] flags calm)

whole-exited : main_args [] flags calm ≡ exited 0 whole
unfolding run_command stages transcode_stage transcode_phases direct_stage direct_opts run_one
    resolve_ffmpeg ids_of phase_opts json_stage write_json defaults equal
whole-exited = refl

main_args-IsComplete_example : IsComplete flags calm whole
main_args-IsComplete_example = main_args-IsComplete flags calm whole [] (inl refl) whole-exited
