-- ===== src/Transcode/Phase.antt =====
-- transcode.go: `runPhase`, over what it meets, with what it does to the
-- destination; measure.go: `PhaseResult`.
pub mod Tidy
pub mod Mounted
use nixos_fleet.Base.{
  ℕ, ◌==◌, Bool, true, false, not, ◌&&◌, ◌||◌, List, [], ◌∷◌, ◌++◌, Option, none, some,
  if◌then◌else◌, Bytes, ascii, Error, no_segments, Result, ok, err,
}
use nixos_fleet.Base.Float.{Float64, of_uint, seconds}
use nixos_fleet.Base.Int.{ℤ}
use nixos_fleet.Base.Word.{sub64}
use nixos_fleet.Direct.Phase.{reported_delta}
use nixos_fleet.Health.{HealthSummary}
use nixos_fleet.Measure.Cpu.{CpuTicks, read_cpu}
use nixos_fleet.Measure.Disk.{DiskTicks, read_disk, Statfs, root_avail}
use nixos_fleet.Measure.Rates.{iowait_pct, mib, mib_sectors}
use nixos_fleet.Measure.Walk.{Entry, dir_bytes}
use nixos_fleet.Nfs.Mounts.{FsType, named, findmnt_fs_type, dest_avail}
use nixos_fleet.Nfs.Stats.{NfsSnap, read_nfs_snap}
use nixos_fleet.Text.Cut.{equal}
use nixos_fleet.Transcode.Ffmpeg.{FfmpegOutcome, other_user}
use nixos_fleet.Transcode.Sampling.{Snapshot, Sampled, max_iowait}

pub record PhaseResult {ℓ} (F : Type ℓ) : Type ℓ where
  pub name : Bytes
  pub dest : Bytes
  pub fs_type : FsType
  pub realtime_throttle : Bool
  pub wall_seconds : F
  pub ffmpeg_exit : Bytes
  pub iowait_pct : F
  pub iowait_pct_max : F
  pub sda_mib_read : F
  pub sda_mib_written : F
  pub dest_mib : F
  pub root_avail_delta_mib : F
  pub root_avail_after_mib : F
  pub dest_avail_delta_mib : F
  pub dest_avail_after_mib : F
  pub nfs : Option NfsSnap
  pub health : Option (HealthSummary F)
  pub files : ℕ
  pub samples : List (Snapshot F)
  pub ffmpeg_tail : Bytes

-- The phase reads some of the options itself; the others go to what it calls.
pub record PhaseOpts : Type 0 where
  pub name : Bytes
  pub dest : Bytes
  pub ffmpeg : Bytes
  pub input : Bytes
  pub disk_dev : Bytes
  pub as_user : Bytes
  pub realtime : Bool
  pub run_for : ℤ
  pub tmpfs : Bool
  pub tmpfs_size : Bytes
  pub uid : ℤ
  pub gid : ℤ
  pub health_url : Bytes
  pub nfs_mount : Bytes

-- What the phase meets, in order: the results of its calls and of its readings before and after.
-- `empty_last` and `umount` are the errors that it drops.
pub record PhaseEnv {ℓ} (F : Type ℓ) : Type ℓ where
  pub mkdir : Option Error
  pub mount : Option Error
  pub empty : Option Error
  pub chown : Option Error
  pub statfs_0 : Bytes → Result Statfs
  pub mountstats_0 : Result Bytes
  pub ffmpeg : FfmpegOutcome F
  pub sampled : Sampled F
  pub health : HealthSummary F
  pub stat_1 : Result Bytes
  pub disk_1 : Result Bytes
  pub statfs_1 : Bytes → Result Statfs
  pub tree : Result Entry
  pub mountstats_1 : Result Bytes
  pub empty_last : Option Error
  pub umount : Option Error

-- What the phase does to the destination; emptyDir and umount with the error that they ended with.
pub data Effect : Type 0 where
  made mounted chowned transcoded : Effect
  emptied unmounted : Option Error → Effect

-- The results, and what was done.
pub record Ran {ℓ} (F : Type ℓ) : Type ℓ where
  pub result : PhaseResult F
  pub error : Option Error
  pub effects : List Effect

abbrev pub value_or_zero : Result ℕ → ℕ
value_or_zero (ok n) = n
value_or_zero (err e) = 0

module _ {ℓ} {F : Type ℓ} ⦃f : Float64 F⦄ where
  abbrev pub no_result : Bytes → Bytes → FsType → Bool → PhaseResult F
  no_result name dest kind realtime =
      let zero = of_uint 0 in
      record {
        name = name;
        dest = dest;
        fs_type = kind;
        realtime_throttle = realtime;
        wall_seconds = zero;
        ffmpeg_exit = [];
        iowait_pct = zero;
        iowait_pct_max = zero;
        sda_mib_read = zero;
        sda_mib_written = zero;
        dest_mib = zero;
        root_avail_delta_mib = zero;
        root_avail_after_mib = zero;
        dest_avail_delta_mib = zero;
        dest_avail_after_mib = zero;
        nfs = none;
        health = none;
        files = 0;
        samples = [];
        ffmpeg_tail = [];
      }

  abbrev ran : PhaseResult F → Option Error → List Effect → Ran F
  ran result e effects = record { result = result; error = e; effects = effects }

  -- float64(b) - float64(a), in MiB
  abbrev delta_mib : ℕ → ℕ → F
  delta_mib a b = f.div (f.div (f.sub (of_uint b) (of_uint a)) (of_uint 1024)) (of_uint 1024)

  -- The numbers of the result.
  unfoldable pub measured :
      PhaseOpts
      → PhaseEnv F
      → PhaseResult F
      → (avail_0 avail_1 : ℕ) → CpuTicks
      → DiskTicks
      → PhaseResult F
  measured o env res avail_0 avail_1 cpu disk =
      let (n, files, _) = dir_bytes env.tree in
      let point = if equal o.nfs_mount [] then o.dest else o.nfs_mount in
      let dest_0 = value_or_zero (dest_avail env.statfs_0 o.dest) in
      let dest_1 = value_or_zero (dest_avail env.statfs_1 o.dest) in
      record res {
        wall_seconds = env.ffmpeg.wall;
        ffmpeg_exit = env.ffmpeg.exit;
        iowait_pct = iowait_pct env.sampled.cpu cpu;
        iowait_pct_max = max_iowait (of_uint 0) env.sampled.samples;
        sda_mib_read = mib_sectors (sub64 disk.sectors_read env.sampled.disk.sectors_read);
        sda_mib_written = mib_sectors (sub64 disk.sectors_written env.sampled.disk.sectors_written);
        dest_mib = mib n;
        root_avail_delta_mib = delta_mib avail_0 avail_1;
        root_avail_after_mib = mib avail_1;
        dest_avail_delta_mib = delta_mib dest_0 dest_1;
        dest_avail_after_mib = mib dest_1;
        files = files;
        samples = env.sampled.samples;
        ffmpeg_tail = env.ffmpeg.tail;
        health = some env.health;
        nfs =
            reported_delta (read_nfs_snap point env.mountstats_0)
              (read_nfs_snap point env.mountstats_1);
      }

  -- The error of a phase whose readings succeeded.
  unfoldable pub ffmpeg_error : ℕ → FfmpegOutcome F → Option Error → Option Error
  ffmpeg_error files out none = none
  ffmpeg_error files out (some e) =
      if files == 0 then some (no_segments out.exit e out.tail) else none

  abbrev with_avail :
      PhaseOpts → PhaseEnv F → PhaseResult F → ℕ → CpuTicks → DiskTicks → Result ℕ → Ran F
  with_avail o env res avail_0 cpu disk (err e) = ran res (some e) (transcoded ∷ [])
  with_avail o env res avail_0 cpu disk (ok avail_1) =
      let full = measured o env res avail_0 avail_1 cpu disk in
      ran full (ffmpeg_error full.files env.ffmpeg env.ffmpeg.error)
        (transcoded ∷ emptied env.empty_last ∷ [])

  abbrev with_disk :
      PhaseOpts → PhaseEnv F → PhaseResult F → ℕ → CpuTicks → Result DiskTicks → Ran F
  with_disk o env res avail_0 cpu (err e) = ran res (some e) (transcoded ∷ [])
  with_disk o env res avail_0 cpu (ok disk) =
      with_avail o env res avail_0 cpu disk (root_avail env.statfs_1)

  abbrev with_cpu : PhaseOpts → PhaseEnv F → PhaseResult F → ℕ → Result CpuTicks → Ran F
  with_cpu o env res avail_0 (err e) = ran res (some e) (transcoded ∷ [])
  with_cpu o env res avail_0 (ok cpu) =
      with_disk o env res avail_0 cpu (read_disk o.disk_dev env.disk_1)

  abbrev with_samples : PhaseOpts → PhaseEnv F → PhaseResult F → ℕ → Option Error → Ran F
  with_samples o env res avail_0 (some e) = ran res (some e) (transcoded ∷ [])
  with_samples o env res avail_0 none = with_cpu o env res avail_0 (read_cpu env.stat_1)

  -- From the first reading of statfs on.
  unfoldable pub transcode : PhaseOpts → PhaseEnv F → PhaseResult F → Result ℕ → Ran F
  transcode o env res (err e) = ran res (some e) []
  transcode o env res (ok avail_0) =
      with_samples o env (record res { fs_type = findmnt_fs_type env.statfs_0 o.dest }) avail_0
        env.sampled.error

  abbrev after : List Effect → Ran F → Ran F
  after es r = record r { effects = es ++ r.effects }

  -- The directory is given to the user; on a tmpfs the error does not count.
  unfoldable pub with_owner : PhaseOpts → PhaseEnv F → PhaseResult F → Option Error → Ran F
  with_owner o env res none = after (chowned ∷ []) (transcode o env res (root_avail env.statfs_0))
  with_owner o env res (some e) =
      if not o.tmpfs
      then ran res (some e) (chowned ∷ [])
      else after (chowned ∷ []) (transcode o env res (root_avail env.statfs_0))

  -- Behind the mount, up to the return.
  unfoldable pub in_directory : PhaseOpts → PhaseEnv F → PhaseResult F → Option Error → Ran F
  in_directory o env res (some e) = ran res (some e) (emptied (some e) ∷ [])
  in_directory o env res none = after (emptied none ∷ []) (
      if other_user o.as_user
      then with_owner o env res env.chown
      else transcode o env res (root_avail env.statfs_0))

  -- `defer unmount(o.Dest)`
  abbrev then_unmount : PhaseEnv F → Ran F → Ran F
  then_unmount env r = record r { effects = (mounted ∷ r.effects) ++ unmounted env.umount ∷ [] }

  abbrev on_tmpfs : PhaseOpts → PhaseEnv F → PhaseResult F → Option Error → Ran F
  on_tmpfs o env res (some e) = ran res (some e) []
  on_tmpfs o env res none = then_unmount env (in_directory o env res env.empty)

  abbrev made_directory : PhaseOpts → PhaseEnv F → PhaseResult F → Option Error → Ran F
  made_directory o env res (some e) = ran res (some e) []
  made_directory o env res none =
      after (made ∷ [])
        (if o.tmpfs then on_tmpfs o env res env.mount else in_directory o env res env.empty)

  unfoldable pub run_phase : PhaseOpts → PhaseEnv F → Ran F
  run_phase o env = made_directory o env (no_result o.name o.dest (named []) o.realtime) env.mkdir
