-- ===== src/Measure/Rates.antt =====
-- measure.go: `iowaitPct`, `mib` and `mibSectors`.
pub mod Growth
use nixos_fleet.Base.{ℕ, ◌==◌, Bool, if◌then◌else◌}
use nixos_fleet.Base.Float.{Float64, of_uint}
use nixos_fleet.Base.Word.{sub64}
use nixos_fleet.Measure.Cpu.{CpuTicks}

module _ {ℓ} {F : Type ℓ} ⦃f : Float64 F⦄ where
  unfoldable pub iowait_pct : CpuTicks → CpuTicks → F
  iowait_pct a b =
      let dt = sub64 b.total a.total in
      if dt == 0
      then of_uint 0
      else f.div (f.mul (of_uint 100) (of_uint (sub64 b.iowait a.iowait))) (of_uint dt)

  unfoldable pub mib : ℕ → F
  mib bytes = f.div (f.div (of_uint bytes) (of_uint 1024)) (of_uint 1024)

  unfoldable pub mib_sectors : ℕ → F
  mib_sectors sectors =
      f.div (f.div (f.mul (of_uint sectors) (of_uint 512)) (of_uint 1024)) (of_uint 1024)
