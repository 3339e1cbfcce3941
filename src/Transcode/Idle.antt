-- ===== src/Transcode/Idle.antt =====
-- transcode.go: `idlePhase`, over what it meets.
use nixos_fleet.Base.{false, Bytes, ascii, Option, none, some, Error, Result, ok, err}
use nixos_fleet.Base.Float.{Float64, of_uint, seconds}
use nixos_fleet.Base.Int.{ℤ}
use nixos_fleet.Base.Word.{sub64}
use nixos_fleet.Health.{HealthSummary}
use nixos_fleet.Measure.Cpu.{CpuTicks, read_cpu}
use nixos_fleet.Measure.Disk.{DiskTicks, read_disk, Statfs, root_avail}
use nixos_fleet.Measure.Rates.{iowait_pct, mib, mib_sectors}
use nixos_fleet.Nfs.Mounts.{findmnt_fs_type}
use nixos_fleet.Transcode.Phase.{PhaseResult, no_result, value_or_zero}
use nixos_fleet.Transcode.Sampling.{Sampled, max_iowait}

-- What the phase meets, in order.
pub record IdleEnv {ℓ} (F : Type ℓ) : Type ℓ where
  pub statfs_0 : Bytes → Result Statfs
  pub sampled : Sampled F
  pub health : HealthSummary F
  pub stat_1 : Result Bytes
  pub disk_1 : Result Bytes
  pub statfs_1 : Bytes → Result Statfs

module _ {ℓ} {F : Type ℓ} ⦃f : Float64 F⦄ where
  unfoldable pub idle_measured :
      ℤ → IdleEnv F → PhaseResult F → CpuTicks → DiskTicks → PhaseResult F
  idle_measured run_for env res cpu disk = record res {
    wall_seconds = seconds run_for;
    iowait_pct = iowait_pct env.sampled.cpu cpu;
    iowait_pct_max = max_iowait (of_uint 0) env.sampled.samples;
    sda_mib_read = mib_sectors (sub64 disk.sectors_read env.sampled.disk.sectors_read);
    sda_mib_written = mib_sectors (sub64 disk.sectors_written env.sampled.disk.sectors_written);
    root_avail_after_mib = mib (value_or_zero (root_avail env.statfs_1));
    samples = env.sampled.samples;
    health = some env.health;
  }

  abbrev idle_disk :
      ℤ → IdleEnv F → PhaseResult F → CpuTicks → Result DiskTicks → PhaseResult F × Option Error
  idle_disk run_for env res cpu (err e) = (res, some e)
  idle_disk run_for env res cpu (ok disk) = (idle_measured run_for env res cpu disk, none)

  abbrev idle_cpu :
      Bytes → ℤ → IdleEnv F → PhaseResult F → Result CpuTicks → PhaseResult F × Option Error
  idle_cpu dev run_for env res (err e) = (res, some e)
  idle_cpu dev run_for env res (ok cpu) = idle_disk run_for env res cpu (read_disk dev env.disk_1)

  abbrev idle_sampled :
      Bytes → ℤ → IdleEnv F → PhaseResult F → Option Error → PhaseResult F × Option Error
  idle_sampled dev run_for env res (some e) = (res, some e)
  idle_sampled dev run_for env res none = idle_cpu dev run_for env res (read_cpu env.stat_1)

  unfoldable pub idle_phase : Bytes → ℤ → IdleEnv F → PhaseResult F × Option Error
  idle_phase dev run_for env =
      let res =
        no_result (ascii "idle") (ascii "/") (findmnt_fs_type env.statfs_0 (ascii "/")) false in
      idle_sampled dev run_for env res env.sampled.error
