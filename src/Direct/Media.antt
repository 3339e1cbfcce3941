-- ===== src/Direct/Media.antt =====
-- directplay.go: `findFFprobe`, `probeMedia` and `dropCaches`, over what the file system and the
-- commands answer.
pub mod Values
use nixos_fleet.Base.{
  ℕ, ltb, Bool, true, false, not, ◌&&◌, List, [], ◌∷◌, ◌++◌, Option, none, some, if◌then◌else◌,
  Bytes, ascii, Error, ffprobe_failed, Result, ok, err,
}
use nixos_fleet.Base.Float.{Float64, of_uint}
use nixos_fleet.Text.Cut.{equal, cut, split}
use nixos_fleet.Text.Number.{parse_uint}

-- The results of `probeMedia` before its error.
pub record Media {ℓ} (F : Type ℓ) : Type ℓ where
  pub duration : F
  pub bit_rate : ℕ
  pub size : ℕ

-- What the file system says of a path: `none` where os.Stat fails, and whether it is a directory.
abbrev is_file : Option Bool → Bool
is_file none = false
is_file (some is_dir) = not is_dir

abbrev last_match : List Bytes → Option Bytes
last_match [] = none
last_match (m ∷ []) = some m
last_match (m ∷ n ∷ ms) = last_match (n ∷ ms)

abbrev system_ffprobe : Bytes
system_ffprobe = ascii "/run/current-system/sw/bin/ffprobe"

abbrev installed : (Bytes → Option Bool) → Option Bytes → Bytes
installed stat (some m) = m
installed stat none = if is_file (stat system_ffprobe) then system_ffprobe else []

-- `beside` is filepath.Join(filepath.Dir(path), "ffprobe"), and `matches` what filepath.Glob finds.
unfoldable pub find_ffprobe : (Bytes → Bytes) → (Bytes → Option Bool) → List Bytes → Bytes → Bytes
find_ffprobe beside stat matches ffmpeg =
    if not (equal ffmpeg []) && is_file (stat (beside ffmpeg))
    then beside ffmpeg
    else installed stat (last_match matches)

abbrev keep_size : ℕ → ℕ × Option Error → ℕ
keep_size size (n, none) = if ltb 0 n then n else size
keep_size size (n, some e) = size

module _ {ℓ} {F : Type ℓ} ⦃f : Float64 F⦄ where
  -- What a key and its value do to the results.
  unfoldable pub media_value : Media F → Bytes → Bytes → Media F
  media_value m k v =
      if equal k (ascii "duration")
      then record m { duration = f.parse v }
      else if equal k (ascii "bit_rate")
      then record m { bit_rate = (parse_uint v).0 }
      else if equal k (ascii "size")
      then record m { size = keep_size m.size (parse_uint v) }
      else m

  abbrev media_line : Media F → Option (Bytes × Bytes) → Media F
  media_line m none = m
  media_line m (some (k, v)) = media_value m k v

  unfoldable pub media_lines : Media F → List Bytes → Media F
  media_lines m [] = m
  media_lines m (line ∷ ls) = media_lines (media_line m (cut b'=' line)) ls

  abbrev pub of_size : ℕ → Media F
  of_size n = record { duration = of_uint 0; bit_rate = 0; size = n }

  abbrev read_output : ℕ → Result Bytes → Media F × Option Error
  read_output n (err e) = (of_size n, some (ffprobe_failed e))
  read_output n (ok out) = (media_lines (of_size n) (split b'\n' out), none)

  -- `size` is the answer of os.Stat, and `output` that of the command.
  unfoldable pub probe_media : Result ℕ → (Bytes → Result Bytes) → Bytes → Media F × Option Error
  probe_media (err e) output ffprobe = (of_size 0, some e)
  probe_media (ok n) output ffprobe =
      if equal ffprobe [] then (of_size n, none) else read_output n (output ffprobe)

-- What `sync` and the write to /proc/sys/vm/drop_caches give.
unfoldable pub drop_caches : Option Error → Option Error → Option Error
drop_caches (some e) written = some e
drop_caches none written = written
