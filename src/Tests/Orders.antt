-- ===== src/Tests/Orders.antt =====
-- The orders of windows and of the lines of ffmpeg's log, at small inputs.
use mathlib.Core.List.Perm
use nixos_fleet.Base.{List, [], ◌∷◌, ◌≡◌, ◌≢◌, refl, All, arith, Bytes, ascii}
use nixos_fleet.Base.Float.{Micros, micros_float, Micros-IsOrdered, of_uint}
use nixos_fleet.Direct.Progress.{parse_ffmpeg_progress}
use nixos_fleet.Direct.Progress.Newest.{unlines, blocks, samples_of, parse_ffmpeg_progress-newest}
use nixos_fleet.Direct.Stats.{window_stats}
use nixos_fleet.Direct.Stats.Unordered.{StatsAlike, window_stats-perm}
use nixos_fleet.Text.Lines.{IsLine}

abbrev seen : List Micros
seen = of_uint 9 ∷ of_uint 2 ∷ of_uint 5 ∷ []

abbrev swapped : List Micros
swapped = of_uint 2 ∷ of_uint 9 ∷ of_uint 5 ∷ []

seen-ne-nil : seen ≢ []
seen-ne-nil e = cc

window_stats-perm_example : StatsAlike (window_stats seen) (window_stats swapped)
window_stats-perm_example =
    window_stats-perm Micros-IsOrdered seen swapped
      (Perm.swap (of_uint 2) (of_uint 9) (of_uint 5 ∷ [])) seen-ne-nil (refl, (refl, (refl, tt)))

abbrev log : List Bytes
log =
    ascii "out_time_us=5"
    ∷ ascii "speed=2x"
    ∷ ascii "progress=continue"
    ∷ ascii "out_time_us=N/A"
    ∷ ascii "progress=end"
    ∷ []

log-IsLine : All IsLine log
log-IsLine = ground arith

parse_ffmpeg_progress-newest_example :
    parse_ffmpeg_progress {F = Micros} (unlines log) ≡ samples_of (blocks [] log)
parse_ffmpeg_progress-newest_example = parse_ffmpeg_progress-newest log log-IsLine
