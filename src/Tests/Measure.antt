-- ===== src/Tests/Measure.antt =====
-- measure.go at small inputs.
use nixos_fleet.Base.{
  ℕ, ◌+◌, ◌-◌, ◌==◌, List, [], ◌∷◌, ◌++◌, ◌≡◌, ◌↔◌, refl, none, some, arith, Bytes, ascii, Error,
  system, ok, err, if◌then◌else◌, ◌%◌, ◌≤◌, false, length,
}
use nixos_fleet.Base.Float.{Micros, micros_float, of_uint}
use nixos_fleet.Base.Order.{sum}
use nixos_fleet.Base.Word.{u64_mod}
use nixos_fleet.Measure.Cpu.{CpuTicks, read_cpu}
use nixos_fleet.Measure.Cpu.Reading.{AllWrites, IsReading, read_cpu_iff, read_cpu-Spells}
use nixos_fleet.Measure.Disk.{read_disk}
use nixos_fleet.Measure.Disk.Reading.{read_disk-Spells}
use nixos_fleet.Measure.Memory.{mem_available, mem_available_kib}
use nixos_fleet.Measure.Memory.Reading.{mem_available_kib-Spells}
use nixos_fleet.Measure.Rates.{iowait_pct}
use nixos_fleet.Measure.Rates.Growth.{ticks, iowait_pct-ticks}
use nixos_fleet.Measure.Walk.{Entry, file, dir, end, entry, dir_bytes}
use nixos_fleet.Measure.Walk.Total.{answers, sizes, first_error, dir_bytes-answers}
use nixos_fleet.Text.Cut.{equal, has_prefix, cut_prefix}
use nixos_fleet.Text.Lines.{scan_lines, IsLine}
use nixos_fleet.Text.Number.{parse_uint, parse_digits}
use nixos_fleet.Text.Render.{Spells, nil, blank, last, word, IsWord, Writes}
use nixos_fleet.Text.Words.{fields, fields_from, space_width}

abbrev cpu_line : Bytes
cpu_line = ascii "cpu  1 2 3 4 50"

abbrev cpu_words : List Bytes
cpu_words = ascii "1" ∷ ascii "2" ∷ ascii "3" ∷ ascii "4" ∷ ascii "50" ∷ []

abbrev cpu_ns : List ℕ
cpu_ns = 1 ∷ 2 ∷ 3 ∷ 4 ∷ 50 ∷ []

abbrev cpu_rest : Bytes
cpu_rest = ascii "cpu0 x"

abbrev cpu_ticks : CpuTicks
cpu_ticks = record { iowait = 50; total = 60 }

read_cpu-short :
    read_cpu (ok (ascii "cpu 1 2 3 4")) ≡ err (Error.unexpected_proc_stat (ascii "cpu 1 2 3 4"))
unfolding read_cpu scan_lines fields fields_from space_width equal
read_cpu-short = refl

cpu_line-Spells : Spells cpu_line (ascii "cpu" ∷ cpu_words)
cpu_line-Spells = word b' ' (ground arith) refl (
    blank refl (
      word b' ' (ground arith) refl (
        word b' ' (ground arith) refl
          (word b' ' (ground arith) refl (word b' ' (ground arith) refl (last (ground arith)))))))

digits-Writes : Writes (ascii "50") 50
digits-Writes = record {
  digits = ground arith;
  ne_nil = λ e. cc;
  value_eq = refl;
  fits = ground arith;
}

one_digit : (c n : ℕ) → (b'0' ≤ c) × (c ≤ b'9') → c - b'0' ≡ n → Writes (c ∷ []) n
one_digit c n d e = record {
  digits = (d, tt);
  ne_nil = λ h. cc;
  value_eq = omega arith;
  fits = omega arith;
}

cpu_words-AllWrites : AllWrites cpu_words cpu_ns
cpu_words-AllWrites = (
  one_digit b'1' 1 (ground arith) refl,
  (
    one_digit b'2' 2 (ground arith) refl,
    (
      one_digit b'3' 3 (ground arith) refl,
      (one_digit b'4' 4 (ground arith) refl, (digits-Writes, tt)),
    ),
  ),
)

cpu_line-IsLine : IsLine cpu_line
cpu_line-IsLine = record { no_newline = refl; no_return = refl; fits = ground arith }

read_cpu-Spells_example : read_cpu (ok (cpu_line ++ (b'\n' ∷ cpu_rest))) ≡ ok cpu_ticks
read_cpu-Spells_example =
    read_cpu-Spells cpu_ns cpu_rest cpu_line-IsLine cpu_line-Spells cpu_words-AllWrites
      (ground arith)

read_cpu_iff_example :
    (read_cpu (ok (cpu_line ++ (b'\n' ∷ cpu_rest))) ≡ ok cpu_ticks)
    ↔ IsReading (cpu_line ++ (b'\n' ∷ cpu_rest)) cpu_ticks
read_cpu_iff_example = read_cpu_iff (cpu_line ++ (b'\n' ∷ cpu_rest)) cpu_ticks

-- The line that /sys/block/<dev>/stat holds.
abbrev disk_text : Bytes
disk_text = ascii "1 2 3 4 1 2 50\n"

abbrev disk_words : List Bytes
disk_words = ascii "1" ∷ ascii "2" ∷ ascii "3" ∷ ascii "4" ∷ ascii "1" ∷ ascii "2" ∷ ascii "50" ∷ []

abbrev disk_ns : List ℕ
disk_ns = 1 ∷ 2 ∷ 3 ∷ 4 ∷ 1 ∷ 2 ∷ 50 ∷ []

word_then :
    {w s : Bytes} {ws : List Bytes} → IsWord w → Spells s ws → Spells (w ++ (b' ' ∷ s)) (w ∷ ws)
word_then h t = word b' ' h refl t

disk_text-Spells : Spells disk_text disk_words
disk_text-Spells = word_then (ground arith) (
    word_then (ground arith) (
      word_then (ground arith) (
        word_then (ground arith) (
          word_then (ground arith)
            (word_then (ground arith) (word b'\n' (ground arith) refl nil))))))

disk_words-AllWrites : AllWrites disk_words disk_ns
disk_words-AllWrites = (
  one_digit b'1' 1 (ground arith) refl,
  (
    one_digit b'2' 2 (ground arith) refl,
    (
      one_digit b'3' 3 (ground arith) refl,
      (
        one_digit b'4' 4 (ground arith) refl,
        (
          one_digit b'1' 1 (ground arith) refl,
          (one_digit b'2' 2 (ground arith) refl, (digits-Writes, tt)),
        ),
      ),
    ),
  ),
)

read_disk-counters :
    read_disk (ascii "sda") (ok disk_text) ≡ ok (record { sectors_read = 3; sectors_written = 50 })
read_disk-counters =
    read_disk-Spells (ascii "sda") disk_ns disk_text-Spells disk_words-AllWrites (ground arith)

abbrev meminfo : Bytes
meminfo = ascii "MemTotal: 9 kB\nMemAvailable: 50\n"

meminfo-lines :
    scan_lines meminfo ≡ ascii "MemTotal: 9 kB" ∷ (mem_available ++ (b' ' ∷ ascii "50")) ∷ []
unfolding scan_lines
meminfo-lines = refl

mem_total-IsOther : has_prefix (ascii "MemTotal: 9 kB") mem_available ≡ false
unfolding has_prefix cut_prefix
mem_total-IsOther = refl

mem_available_kib-meminfo : mem_available_kib (ok meminfo) ≡ 50
mem_available_kib-meminfo =
    mem_available_kib-Spells meminfo (ascii "MemTotal: 9 kB" ∷ []) [] meminfo-lines
      (mem_total-IsOther, tt) (last (ground arith)) digits-Writes

-- A number out of range is read as the largest uint64.
mem_available_kib-range :
    mem_available_kib (ok (ascii "MemAvailable: 99999999999999999999 kB")) ≡ u64_mod - 1
unfolding mem_available_kib scan_lines has_prefix cut_prefix fields fields_from space_width
    parse_uint parse_digits
mem_available_kib-range = refl

iowait_pct-ticks_example :
    iowait_pct {F = Micros} (ticks (u64_mod - 1) 100) (ticks (u64_mod - 1 + 5) (100 + 20)) ≡ (
      if 20 == 0
      then of_uint 0
      else micros_float.div (micros_float.mul (of_uint 100) (of_uint 5)) (of_uint 20))
iowait_pct-ticks_example = iowait_pct-ticks (u64_mod - 1) 100 5 20 (omega arith) (omega arith)

-- Two files, and a directory that cannot be read between them.
abbrev tree : Entry
tree = dir none (
    entry (file (ok 7))
      (entry (dir (some (system (ascii "EACCES"))) end) (entry (file (ok 9)) end)))

dir_bytes-answers_example : dir_bytes (ok tree) ≡ (
  sum (sizes (answers tree)) % u64_mod,
  length (sizes (answers tree)),
  first_error (answers tree),
)
dir_bytes-answers_example = dir_bytes-answers tree

dir_bytes-tree : dir_bytes (ok tree) ≡ (7, 1, some (system (ascii "EACCES")))
dir_bytes-tree = dir_bytes-answers tree
