-- ===== src/Tests/Search.antt =====
-- main.go at small inputs.
use nixos_fleet.Base.{
  Bool, true, false, List, [], ◌∷◌, ◌++◌, ◌≡◌, ◌≢◌, ◌⊎◌, refl, Option, none, some, if◌then◌else◌,
  Bytes, ascii, ok,
}
use nixos_fleet.Search.{
  Process, looks_like, ffmpeg_arg, ffmpeg_of, ffmpeg_from_jellyfin, system_ffmpeg, find_ffmpeg,
}
use nixos_fleet.Search.Found.{IsLast, NotGiven, find_ffmpeg-found}
use nixos_fleet.Text.Cut.{equal, contains, has_prefix, has_suffix, cut_prefix, split}

abbrev given : Bytes
given = ascii "/f"

abbrev processes : List Process
processes =
    record { is_dir = true; cmdline = ok (ascii "sh" ++ (0 ∷ ascii "--ffmpeg=/no")) }
    ∷ record {
      is_dir = true;
      cmdline = ok (ascii "/nix/jellyfin" ++ (0 ∷ (ascii "--ffmpeg" ++ (0 ∷ given))));
    }
    ∷ []

abbrev stat : Bytes → Option Bool
stat path = if equal path given then some false else none

find_ffmpeg-processes : find_ffmpeg (ok processes) stat (ok []) ≡ ok given
unfolding find_ffmpeg ffmpeg_from_jellyfin ffmpeg_of ffmpeg_arg looks_like equal contains has_prefix
    has_suffix cut_prefix split
find_ffmpeg-processes = refl

find_ffmpeg-found_example :
    ((given ≡ ffmpeg_from_jellyfin (ok processes)) × (given ≢ []) × (stat given ≢ none))
    ⊎ (NotGiven (ok processes) stat × (given ≡ system_ffmpeg) × (stat system_ffmpeg ≡ some false))
    ⊎ (NotGiven (ok processes) stat × (stat system_ffmpeg ≢ some false) × IsLast (ok []) given)
find_ffmpeg-found_example = find_ffmpeg-found (ok processes) stat (ok []) find_ffmpeg-processes
