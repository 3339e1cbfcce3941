-- ===== src/Tests/Transcode.antt =====
-- transcode.go at small inputs.
use nixos_fleet.Base.{
  ℕ, ◌-◌, ◌≤◌, ◌<◌, true, false, List, [], ◌∷◌, ◌++◌, ◌≡◌, ◌↔◌, refl, Option, none, some, map, All,
  if◌then◌else◌, length, drop, arith, Bytes, ascii, Error, system, Result, ok,
}
use nixos_fleet.Base.Int.{pos}
use nixos_fleet.Base.Float.{Micros, micros_float}
use nixos_fleet.Base.Word.{add64, mul64}
use nixos_fleet.Health.{no_summary}
use nixos_fleet.Measure.Cpu.{CpuTicks, read_cpu, add_ticks, cpu_numbers, cpu_fields}
use nixos_fleet.Measure.Disk.{DiskTicks, read_disk, disk_fields, Statfs, root_avail}
use nixos_fleet.Measure.Walk.{file}
use nixos_fleet.Text.Cut.{equal, split, join}
use nixos_fleet.Text.Lines.{scan_lines}
use nixos_fleet.Text.Number.{parse_uint, parse_digits}
use nixos_fleet.Text.Words.{fields, fields_from, space_width}
use nixos_fleet.Transcode.Directory.{entries, removed, empty_dir, remove_entries}
use nixos_fleet.Transcode.Directory.Removal.{tried, empty_dir-tried}
use nixos_fleet.Transcode.Ffmpeg.{overstayed, run_ffmpeg}
use nixos_fleet.Transcode.Phase.{
  PhaseOpts, PhaseEnv, made, mounted, emptied, chowned, transcoded, unmounted, run_phase,
  in_directory, with_owner, transcode,
}
use nixos_fleet.Transcode.Sampling.{Readings, sample_loop}
use nixos_fleet.Transcode.Sampling.Series.{Good, series, sample_loop-series}
use nixos_fleet.Transcode.Tail.{last_lines, last_lines-suffix}

abbrev log : Bytes
log = ascii "a\nbb\nc"

last_lines-log : last_lines log 2 ≡ ascii "bb\nc"
unfolding last_lines split join
last_lines-log = refl

last_lines-suffix_example :
    let lines = split b'\n' log in
    ((front : Bytes) × (log ≡ front ++ last_lines log 2))
    × (length lines ≤ 2 → last_lines log 2 ≡ log)
    × (2 < length lines
        → (last_lines log 2 ≡ join b'\n' (drop (length lines - 2) lines))
          × (length (drop (length lines - 2) lines) ≡ 2))
last_lines-suffix_example = last_lines-suffix log 2 (omega arith)

abbrev stat_text : Bytes
stat_text = ascii "cpu 1 2 3 4 5\n"

abbrev disk_text : Bytes
disk_text = ascii "1 2 3 4 5 6 7"

abbrev cpu_ticks : CpuTicks
cpu_ticks = record { iowait = 5; total = 15 }

abbrev disk_ticks : DiskTicks
disk_ticks = record { sectors_read = 3; sectors_written = 7 }

abbrev statfs : Bytes → Result Statfs
statfs path = ok (record { kind = 0xEF53; bsize = 4; blocks = 9; bavail = 5 })

stat_text-ticks : read_cpu (ok stat_text) ≡ ok cpu_ticks
unfolding read_cpu cpu_fields cpu_numbers add_ticks equal scan_lines fields fields_from space_width
    parse_uint parse_digits add64
stat_text-ticks = refl

disk_text-ticks : read_disk (ascii "sda") (ok disk_text) ≡ ok disk_ticks
unfolding read_disk disk_fields fields fields_from space_width parse_uint parse_digits
disk_text-ticks = refl

statfs-avail : root_avail statfs ≡ ok 20
unfolding root_avail mul64
statfs-avail = refl

abbrev readings : ℕ → Readings
readings t = record {
  stat = ok stat_text;
  disk = ok disk_text;
  statfs = statfs;
  tree = ok (file (ok 7));
  meminfo = ok [];
  at = t;
}

abbrev good : ℕ → Good (ascii "sda")
good t = record {
  readings = readings t;
  cpu = cpu_ticks;
  disk = disk_ticks;
  avail = 20;
  cpu_read = stat_text-ticks;
  disk_read = disk_text-ticks;
  avail_read = statfs-avail;
}

sample_loop-series_example :
    sample_loop {F = Micros}
      (ascii "/d")
      (ascii "sda")
      (ok stat_text)
      (ok disk_text)
      (readings 0)
      (readings 1 ∷ readings 2 ∷ [])
      (readings 3)
    ≡ record {
      samples = series (ascii "/d") cpu_ticks (good 0 ∷ (good 1 ∷ good 2 ∷ good 3 ∷ []));
      cpu = cpu_ticks;
      disk = disk_ticks;
      error = none;
    }
sample_loop-series_example =
    sample_loop-series (ascii "/d") (good 0) (good 1 ∷ good 2 ∷ []) (good 3) (ok stat_text)
      (ok disk_text) stat_text-ticks disk_text-ticks

abbrev names : List Bytes
names = ascii "a" ∷ ascii "b" ∷ ascii "c" ∷ []

abbrev remove : Bytes → Option Error
remove name = if equal name (ascii "b") then some (system (ascii "EPERM")) else none

empty_dir-tried_example :
    let r = empty_dir none remove (entries names) in
    (r.0 ≡ map removed (tried remove names))
    × ((r.1 ≡ none) ↔ All (λ n. remove n ≡ none) names)
    × (r.1 ≡ none → r.0 ≡ map removed names)
empty_dir-tried_example = empty_dir-tried none remove names

empty_dir-names :
    empty_dir none remove (entries names)
    ≡ (removed (ascii "a") ∷ removed (ascii "b") ∷ [], some (system (ascii "EPERM")))
unfolding empty_dir remove_entries equal
empty_dir-names = refl

abbrev opts : PhaseOpts
opts = record {
  name = ascii "tmpfs";
  dest = ascii "/d";
  ffmpeg = ascii "/f";
  input = ascii "/m";
  disk_dev = ascii "sda";
  as_user = ascii "jellyfin";
  realtime = false;
  run_for = pos 1;
  tmpfs = true;
  tmpfs_size = ascii "1M";
  uid = pos 1;
  gid = pos 1;
  health_url = [];
  nfs_mount = [];
}

abbrev phase_env : PhaseEnv Micros
phase_env = record {
  mkdir = none;
  mount = none;
  empty = none;
  chown = none;
  statfs_0 = statfs;
  mountstats_0 = ok [];
  ffmpeg = run_ffmpeg [] 0 9 overstayed;
  sampled = record { samples = []; cpu = cpu_ticks; disk = disk_ticks; error = none };
  health = no_summary [];
  stat_1 = ok stat_text;
  disk_1 = ok disk_text;
  statfs_1 = statfs;
  tree = ok (file (ok 7));
  mountstats_1 = ok [];
  empty_last = none;
  umount = some (system (ascii "EBUSY"));
}

run_phase-effects :
    (run_phase opts phase_env).effects
    ≡ made
      ∷ mounted
      ∷ emptied none
      ∷ chowned
      ∷ transcoded
      ∷ emptied none
      ∷ unmounted (some (system (ascii "EBUSY")))
      ∷ []
unfolding run_phase in_directory with_owner transcode equal read_cpu cpu_fields cpu_numbers
    add_ticks scan_lines fields fields_from space_width parse_uint parse_digits add64 read_disk
    disk_fields root_avail mul64
run_phase-effects = refl
