-- ===== src/Measure/Cpu.antt =====
-- measure.go: `cpuTicks` and `readCPU`, over what os.Open and a read of /proc/stat gave.
use nixos_fleet.Base.{
  ℕ, suc, ◌+◌, ◌%◌, ◌<◌, ◌≤◌, ltb, ◌==◌, Bool, true, false, not, ◌||◌, List, [], ◌∷◌, ◌++◌, ◌≡◌,
  ◌↔◌, if◌then◌else◌, length, get_or, arith, Bytes, ascii, Error, Result, ok, err, empty_proc_stat,
  unexpected_proc_stat, ◌>>=◌,
}
use nixos_fleet.Base.Word.{add64}
use nixos_fleet.Text.Cut.{equal}
use nixos_fleet.Text.Lines.{scan_lines}
use nixos_fleet.Text.Number.{parse_uint, checked}
use nixos_fleet.Text.Words.{fields}
pub mod Reading

pub record CpuTicks : Type 0 where
  pub iowait : ℕ
  pub total : ℕ

-- The loop over `fields[1:]`.
unfoldable pub add_ticks : ℕ → List Bytes → Result ℕ
add_ticks total [] = ok total
add_ticks total (f ∷ fs) = do n ← checked (parse_uint f); add_ticks (add64 total n) fs

unfoldable pub cpu_numbers : List Bytes → Result CpuTicks
cpu_numbers fs = do
  total ← add_ticks 0 fs
  iowait ← checked (parse_uint (get_or fs 4 []))
  ok (record { iowait = iowait; total = total })

unfoldable pub cpu_fields : Bytes → List Bytes → Result CpuTicks
cpu_fields line [] = err (unexpected_proc_stat line)
cpu_fields line (name ∷ fs) =
    if ltb (suc (length fs)) 6 || not (equal name (ascii "cpu"))
    then err (unexpected_proc_stat line)
    else cpu_numbers fs

abbrev first_line : List Bytes → Result CpuTicks
first_line [] = err empty_proc_stat
first_line (line ∷ _) = cpu_fields line (fields line)

unfoldable pub read_cpu : Result Bytes → Result CpuTicks
unfolding cpu_fields cpu_numbers add_ticks
read_cpu opened = do text ← opened; first_line (scan_lines text)
