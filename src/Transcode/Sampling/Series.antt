-- ===== src/Transcode/Sampling/Series.antt =====
-- The series of samples that `sampleLoop` takes.
use mathlib.Core.List.{append_assoc}
use nixos_fleet.Base.{ℕ, List, [], ◌∷◌, ◌++◌, ◌≡◌, ◌∙◌, none, Bytes, Result, ok}
use nixos_fleet.Base.Float.{Float64}
use nixos_fleet.Measure.Cpu.{CpuTicks, read_cpu}
use nixos_fleet.Measure.Disk.{DiskTicks, read_disk, root_avail}
use nixos_fleet.Transcode.Sampling.{
  Snapshot, Readings, Sampler, snapshot, record_sample, sampled, tick_samples, sample_loop,
}

-- A sample whose three readings succeed, with what they give.
pub record Good (dev : Bytes) : Type 0 where
  pub readings : Readings
  pub cpu : CpuTicks
  pub disk : DiskTicks
  pub avail : ℕ
  pub cpu_read : read_cpu readings.stat ≡ ok cpu
  pub disk_read : read_disk dev readings.disk ≡ ok disk
  pub avail_read : root_avail readings.statfs ≡ ok avail

abbrev pub all_readings : {dev : Bytes} → List (Good dev) → List Readings
all_readings [] = []
all_readings (g ∷ gs) = g.readings ∷ all_readings gs

module _ {ℓ} {F : Type ℓ} ⦃f : Float64 F⦄ where
  -- Each sample's iowait is that since the one before.
  abbrev pub series : {dev : Bytes} → Bytes → CpuTicks → List (Good dev) → List (Snapshot F)
  series dest previous [] = []
  series dest previous (g ∷ gs) =
      snapshot dest g.readings previous g.cpu g.disk g.avail ∷ series dest g.cpu gs

  record_sample-Good :
      {dev : Bytes} (dest : Bytes) (g : Good dev) (st : Sampler F)
      → record_sample dest dev g.readings st
        ≡ ok (record {
          samples = st.samples ++ snapshot dest g.readings st.previous g.cpu g.disk g.avail ∷ [];
          previous = g.cpu;
        })
  unfolding record_sample
  record_sample-Good dest g st = rw (g.cpu_read, g.disk_read, g.avail_read)

  tick_samples-series :
      {dev : Bytes} (dest : Bytes) (cpu : CpuTicks) (disk : DiskTicks) (gs : List (Good dev))
      (last : Good dev) (st : Sampler F)
      → tick_samples dest dev cpu disk (all_readings gs) last.readings st
        ≡ sampled cpu disk (st.samples ++ series dest st.previous (gs ++ last ∷ [])) none
  unfolding tick_samples
  tick_samples-series dest cpu disk [] last st = rw (record_sample-Good dest last st)
  tick_samples-series {dev} dest cpu disk (g ∷ gs) last st =
      rw (record_sample-Good dest g st, tick_samples)
        (tick_samples-series dest cpu disk gs last _ ∙ rw append_assoc)

  -- Where every reading succeeds there is no error, and a sample for each in order, the last one
  -- included; the iowait of each is that of the ticks since the sample before, and of the first
  -- that since the reading at the start, which is returned with that of the disk.
  pub sample_loop-series :
      {dev : Bytes} (dest : Bytes) (first : Good dev) (ticks : List (Good dev)) (last : Good dev)
      (stat0 disk0 : Result Bytes) {cpu : CpuTicks} {disk : DiskTicks}
      → read_cpu stat0 ≡ ok cpu
      → read_disk dev disk0 ≡ ok disk
      → sample_loop {F = F} dest dev stat0 disk0 first.readings (all_readings ticks) last.readings
        ≡ record {
          samples = series dest cpu (first ∷ (ticks ++ last ∷ []));
          cpu = cpu;
          disk = disk;
          error = none;
        }
  unfolding sample_loop
  sample_loop-series dest first ticks last stat0 disk0 {cpu} {disk} c d =
      rw (c, d, record_sample-Good dest first (record { samples = []; previous = cpu }))
        (tick_samples-series dest cpu disk ticks last _)
