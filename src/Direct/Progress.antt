-- ===== src/Direct/Progress.antt =====
-- directplay.go: `parseFFmpegProgress`.
pub mod Newest
use nixos_fleet.Base.{Bool, ◌&&◌, ◌||◌, List, [], ◌∷◌, none, some, if◌then◌else◌, Bytes, ascii}
use nixos_fleet.Base.Float.{Float64, of_uint}
use nixos_fleet.Text.Cut.{equal, cut, trim_suffix}
use nixos_fleet.Text.Lines.{scan_lines}

-- The arguments of a call of `onSample`, and the variables of the loop.
pub record Sample {ℓ} (F : Type ℓ) : Type ℓ where
  pub speed : F
  pub out_time : F

-- Whether a key and its value hand the variables on.
unfoldable pub ends_sample : Bytes → Bytes → Bool
ends_sample k v =
    equal k (ascii "progress") && (equal v (ascii "continue") || equal v (ascii "end"))

module _ {ℓ} {F : Type ℓ} ⦃f : Float64 F⦄ where
  -- The speed behind its x, 0 where it is not known.
  unfoldable pub speed_of : Bytes → F
  speed_of v =
      let bare = trim_suffix v (ascii "x") in
      if equal bare (ascii "N/A") then of_uint 0 else f.parse bare

  abbrev set_out_time : Sample F → F → Sample F
  set_out_time s us =
      if f.lt (of_uint 0) us then record s { out_time = f.div us (of_uint 1_000_000) } else s

  -- What a key and its value do to the variables.
  unfoldable pub progress_value : Sample F → Bytes → Bytes → Sample F
  progress_value s k v =
      if equal k (ascii "speed")
      then record s { speed = speed_of v }
      else if equal k (ascii "out_time_us")
      then set_out_time s (f.parse v)
      else s

  unfoldable pub progress_lines : Sample F → List Bytes → List (Sample F)
  progress_lines s [] = []
  progress_lines s (line ∷ ls) = elim (cut b'=' line) [
    | none ↦ progress_lines s ls
    | some (k, v) ↦
        let s' = progress_value s k v in
        let rest = progress_lines s' ls in if ends_sample k v then s' ∷ rest else rest
  ]

  -- The calls of `onSample`, in order.
  unfoldable pub parse_ffmpeg_progress : Bytes → List (Sample F)
  parse_ffmpeg_progress text =
      progress_lines (record { speed = of_uint 0; out_time = of_uint 0 }) (scan_lines text)
