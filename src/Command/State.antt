-- ===== src/Command/State.antt =====
-- scripts/jellyfin-io-bench/main.go: the report of `main`, what it runs, and `writeJSON`.
use nixos_fleet.Base.{
  ℕ, List, [], ◌∷◌, ◌++◌, Option, none, some, if◌then◌else◌, Bytes, Error, Result, ok, err,
}
use nixos_fleet.Base.Int.{ℤ}
use nixos_fleet.Command.Ids.{User}
use nixos_fleet.Direct.Report.{DirectPlayOpts, DirectPlayReport}
use nixos_fleet.Dns.{DnsReport}
use nixos_fleet.Nfs.Mounts.{FsType}
use nixos_fleet.Probe.{ProbeReport}
use nixos_fleet.Text.Cut.{equal}
use nixos_fleet.Transcode.Phase.{PhaseOpts, PhaseResult}

pub record Report {ℓ} (F : Type ℓ) : Type ℓ where
  pub started_at : Bytes
  pub hostname : Bytes
  pub dns : Option (DnsReport F)
  pub probe : Option (ProbeReport F)
  pub direct_play : Option (DirectPlayReport F)
  pub phases : List (PhaseResult F)
  pub notes : List Bytes

-- What `main` runs, in order. `wrote_json` is a report that it hands to os.WriteFile.
pub data Action {ℓ} (F : Type ℓ) : Type ℓ where
  ran_dns : (name : Bytes) → Action F
  ran_probe : (cache health xml : Bytes) → Action F
  ran_idle : (disk health : Bytes) → (run_for : ℤ) → Action F
  ran_phase : PhaseOpts → Action F
  ran_direct : DirectPlayOpts F → Action F
  wrote_json : Report F → Action F

-- What it meets: the clock, os.Hostname, os.Geteuid, the error of os.Stat, findFFmpeg and
-- findFFprobe, findmntFSType, rootAvail and user.Lookup; what runDNS, runProbe, idlePhase, runPhase
-- and runDirectPlay give with their arguments; json.MarshalIndent and the error of os.WriteFile.
pub record MainEnv {ℓ} (F : Type ℓ) : Type ℓ where
  pub started_at : Bytes
  pub hostname : Bytes
  pub euid : ℕ
  pub stat_error : Bytes → Option Error
  pub found_ffmpeg : Result Bytes
  pub found_ffprobe : Bytes → Bytes
  pub fs_type : Bytes → FsType
  pub avail : Result ℕ
  pub user_entry : Bytes → Result User
  pub dns : Bytes → DnsReport F
  pub probe : (cache health xml : Bytes) → ProbeReport F
  pub idle : (disk health : Bytes) → ℤ → PhaseResult F × Option Error
  pub phase : PhaseOpts → PhaseResult F × Option Error
  pub direct : DirectPlayOpts F → DirectPlayReport F × Option Error
  pub marshal : Report F → Result Bytes
  pub write_file : Bytes → Bytes → Option Error

-- The variables `ffmpegPath` and `rep`, and what was run.
pub record Bench {ℓ} (F : Type ℓ) : Type ℓ where
  pub ffmpeg : Bytes
  pub report : Report F
  pub actions : List (Action F)

-- It goes on, or has exited with a code.
pub data Stage {ℓ} (F : Type ℓ) : Type ℓ where
  on : Bench F → Stage F
  exited : ℕ → Bench F → Stage F

module _ {ℓ} {F : Type ℓ} where
  abbrev pub and_next : Stage F → (Bench F → Stage F) → Stage F
  and_next (on b) next = next b
  and_next (exited n b) next = exited n b

  -- It runs `a`, with the report `r` behind it.
  abbrev pub act : Action F → Report F → Bench F → Bench F
  act a r b = record b { report = r; actions = b.actions ++ a ∷ [] }

  abbrev pub add_phase : PhaseResult F → Bench F → Report F
  add_phase p b = record b.report { phases = b.report.phases ++ p ∷ [] }

  abbrev pub fail_on : Option Error → Bench F → Stage F
  fail_on none b = on b
  fail_on (some e) b = exited 1 b

  abbrev pub marshalled : MainEnv F → Bytes → Bench F → Result Bytes → Bench F × Option Error
  marshalled env path b (err e) = (b, some e)
  marshalled env path b (ok text) = (act (wrote_json b.report) b.report b, env.write_file path text)

  unfoldable pub write_json : MainEnv F → Bytes → Bench F → Bench F × Option Error
  write_json env path b =
      if equal path [] then (b, none) else marshalled env path b (env.marshal b.report)
