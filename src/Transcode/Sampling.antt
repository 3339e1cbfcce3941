-- ===== src/Transcode/Sampling.antt =====
-- transcode.go: `sampleLoop`, over what the kernel's files hold at each sample; measure.go:
-- `Snapshot`.
pub mod Series
use nixos_fleet.Base.{
  ℕ, Bool, not, ◌&&◌, List, [], ◌∷◌, ◌++◌, Option, none, some, if◌then◌else◌, Bytes, ascii, Error,
  Result, ok, err, ◌>>=◌,
}
use nixos_fleet.Base.Float.{Float64}
use nixos_fleet.Measure.Cpu.{CpuTicks, read_cpu}
use nixos_fleet.Measure.Disk.{DiskTicks, read_disk, Statfs, root_avail}
use nixos_fleet.Measure.Memory.{mem_available_kib}
use nixos_fleet.Measure.Rates.{iowait_pct}
use nixos_fleet.Measure.Walk.{Entry, dir_bytes}
use nixos_fleet.Text.Cut.{equal}

pub record Snapshot {ℓ} (F : Type ℓ) : Type ℓ where
  pub at : ℕ
  pub iowait_pct : F
  pub sectors_read : ℕ
  pub sectors_written : ℕ
  pub root_avail_bytes : ℕ
  pub dest_bytes : ℕ
  pub mem_available_kib : ℕ

-- What a sample meets: /proc/stat, the file of the disk, statfs, the tree below the destination,
-- /proc/meminfo, and the clock.
pub record Readings : Type 0 where
  pub stat : Result Bytes
  pub disk : Result Bytes
  pub statfs : Bytes → Result Statfs
  pub tree : Result Entry
  pub meminfo : Result Bytes
  pub at : ℕ

-- The variables `samples` and `prevCPU`.
pub record Sampler {ℓ} (F : Type ℓ) : Type ℓ where
  pub samples : List (Snapshot F)
  pub previous : CpuTicks

-- The results of `sampleLoop`.
pub record Sampled {ℓ} (F : Type ℓ) : Type ℓ where
  pub samples : List (Snapshot F)
  pub cpu : CpuTicks
  pub disk : DiskTicks
  pub error : Option Error

abbrev no_cpu : CpuTicks
no_cpu = record { iowait = 0; total = 0 }

abbrev no_disk : DiskTicks
no_disk = record { sectors_read = 0; sectors_written = 0 }

abbrev size_or_zero : ℕ × ℕ × Option Error → ℕ
size_or_zero (n, files, none) = n
size_or_zero (n, files, some e) = 0

-- The bytes below the destination, 0 where the walk fails.
unfoldable pub dest_bytes_of : Bytes → Result Entry → ℕ
dest_bytes_of dest tree =
    if not (equal dest []) && not (equal dest (ascii "/")) then size_or_zero (dir_bytes tree) else 0

module _ {ℓ} {F : Type ℓ} ⦃f : Float64 F⦄ where
  abbrev pub snapshot : Bytes → Readings → CpuTicks → CpuTicks → DiskTicks → ℕ → Snapshot F
  snapshot dest r previous cpu disk avail = record {
    at = r.at;
    iowait_pct = iowait_pct previous cpu;
    sectors_read = disk.sectors_read;
    sectors_written = disk.sectors_written;
    root_avail_bytes = avail;
    dest_bytes = dest_bytes_of dest r.tree;
    mem_available_kib = mem_available_kib r.meminfo;
  }

  -- The closure `record`.
  unfoldable pub record_sample : Bytes → Bytes → Readings → Sampler F → Result (Sampler F)
  record_sample dest dev r st = do
    cpu ← read_cpu r.stat
    disk ← read_disk dev r.disk
    avail ← root_avail r.statfs
    ok (record {
      samples = st.samples ++ snapshot dest r st.previous cpu disk avail ∷ [];
      previous = cpu;
    })

  abbrev keep_last : Sampler F → Result (Sampler F) → Sampler F
  keep_last st (ok next) = next
  keep_last st (err e) = st

  abbrev sampled : CpuTicks → DiskTicks → List (Snapshot F) → Option Error → Sampled F
  sampled cpu disk samples e = record { samples = samples; cpu = cpu; disk = disk; error = e }

  -- The loop: a sample at each tick, and a last one when the context is done, whose error is
  -- dropped. At a tick an error ends it.
  unfoldable pub tick_samples :
      Bytes → Bytes → CpuTicks → DiskTicks → List Readings → Readings → Sampler F → Sampled F
  tick_samples dest dev cpu disk [] last st =
      sampled cpu disk (keep_last st (record_sample dest dev last st)).samples none
  tick_samples dest dev cpu disk (r ∷ rs) last st = elim (record_sample dest dev r st) [
    | err e ↦ sampled cpu disk st.samples (some e)
    | ok next ↦ tick_samples dest dev cpu disk rs last next
  ]

  abbrev first_sample :
      Bytes
      → Bytes
      → CpuTicks
      → DiskTicks
      → List Readings
      → Readings
      → Result (Sampler F)
      → Sampled F
  first_sample dest dev cpu disk ticks last (err e) = sampled cpu disk [] (some e)
  first_sample dest dev cpu disk ticks last (ok st) = tick_samples dest dev cpu disk ticks last st

  abbrev with_disk :
      Bytes → Bytes → Readings → List Readings → Readings → CpuTicks → Result DiskTicks → Sampled F
  with_disk dest dev first ticks last cpu (err e) = sampled no_cpu no_disk [] (some e)
  with_disk dest dev first ticks last cpu (ok disk) =
      first_sample dest dev cpu disk ticks last
        (record_sample dest dev first (record { samples = []; previous = cpu }))

  abbrev with_cpu :
      Bytes
      → Bytes
      → Result Bytes
      → Readings
      → List Readings
      → Readings
      → Result CpuTicks
      → Sampled F
  with_cpu dest dev disk0 first ticks last (err e) = sampled no_cpu no_disk [] (some e)
  with_cpu dest dev disk0 first ticks last (ok cpu) =
      with_disk dest dev first ticks last cpu (read_disk dev disk0)

  -- `stat0` and `disk0` are what the two files hold at the start.
  unfoldable pub sample_loop :
      Bytes → Bytes → Result Bytes → Result Bytes → Readings → List Readings → Readings → Sampled F
  sample_loop dest dev stat0 disk0 first ticks last =
      with_cpu dest dev disk0 first ticks last (read_cpu stat0)

  -- The largest share of iowait, from 0.
  unfoldable pub max_iowait : F → List (Snapshot F) → F
  max_iowait most [] = most
  max_iowait most (s ∷ ss) = max_iowait (if f.lt most s.iowait_pct then s.iowait_pct else most) ss
