-- ===== src/Measure/Memory.antt =====
-- measure.go: `memAvailableKiB`, over what os.Open and a read of /proc/meminfo gave.
pub mod Reading
use nixos_fleet.Base.{
  ℕ, Bool, true, false, not, List, [], ◌∷◌, if◌then◌else◌, Bytes, ascii, Result, ok, err,
}
use nixos_fleet.Text.Cut.{has_prefix}
use nixos_fleet.Text.Lines.{scan_lines}
use nixos_fleet.Text.Number.{parse_uint}
use nixos_fleet.Text.Words.{fields}

-- The error of strconv.ParseUint is dropped, and the number beside it returned.
second_number : List Bytes → ℕ
second_number (_ ∷ f ∷ _) = (parse_uint f).0
second_number _ = 0

abbrev pub mem_available : Bytes
mem_available = ascii "MemAvailable:"

unfoldable pub mem_lines : List Bytes → ℕ
unfolding second_number
mem_lines [] = 0
mem_lines (line ∷ ls) =
    if not (has_prefix line mem_available) then mem_lines ls else second_number (fields line)

unfoldable pub mem_available_kib : Result Bytes → ℕ
unfolding mem_lines
mem_available_kib (err e) = 0
mem_available_kib (ok text) = mem_lines (scan_lines text)
