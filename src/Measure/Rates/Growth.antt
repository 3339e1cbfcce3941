-- ===== src/Measure/Rates/Growth.antt =====
-- What `iowaitPct` says of counters that grow.
use nixos_fleet.Base.{ℕ, ◌+◌, ◌%◌, ◌<◌, ◌==◌, ◌≡◌, if◌then◌else◌}
use nixos_fleet.Base.Float.{Float64, of_uint}
use nixos_fleet.Base.Word.{u64_mod, sub64_growth}
use nixos_fleet.Measure.Cpu.{CpuTicks}
use nixos_fleet.Measure.Rates.{iowait_pct}

-- The readings of two counters that stand at these true values.
abbrev pub ticks : ℕ → ℕ → CpuTicks
ticks iowait total = record { iowait = iowait % u64_mod; total = total % u64_mod }

module _ {ℓ} {F : Type ℓ} ⦃f : Float64 F⦄ where
  -- Where both counters grew by less than 2 ^ 64 between the readings, the result is 0 if the total
  -- did not grow, and else 100 times the growth of iowait over that of the total, also where a
  -- counter wrapped in between.
  pub iowait_pct-ticks :
      (iowait total di dt : ℕ)
      → di < u64_mod
      → dt < u64_mod
      → iowait_pct {F = F} (ticks iowait total) (ticks (iowait + di) (total + dt))
        ≡ (if dt == 0 then of_uint 0 else f.div (f.mul (of_uint 100) (of_uint di)) (of_uint dt))
  unfolding iowait_pct
  iowait_pct-ticks iowait total di dt hi ht =
      rw (sub64_growth iowait di hi, sub64_growth total dt ht)
