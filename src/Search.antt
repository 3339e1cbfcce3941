-- ===== src/Search.antt =====
-- scripts/jellyfin-io-bench/main.go: the search for ffmpeg, over /proc, os.Stat and filepath.Glob.
pub mod Found
use nixos_fleet.Base.{
  ℕ, Bool, true, false, not, ◌&&◌, ◌||◌, List, [], ◌∷◌, Option, none, some, if◌then◌else◌, any,
  Bytes, ascii, Error, no_ffmpeg, Result, ok, err,
}
use nixos_fleet.Text.Cut.{equal, contains, has_suffix, cut_prefix, split}

-- An entry of /proc, with what its file cmdline holds.
pub record Process : Type 0 where
  pub is_dir : Bool
  pub cmdline : Result Bytes

unfoldable pub looks_like : Bytes → Bool
looks_like a = contains a (ascii "/bin/jellyfin") || has_suffix a (ascii "jellyfin")

abbrev next_arg : Bytes → List Bytes → Option Bytes
next_arg a [] = none
next_arg a (b ∷ _) = if equal a (ascii "--ffmpeg") then some b else none

-- The loop over the arguments; `none` where it returns nothing.
unfoldable pub ffmpeg_arg : List Bytes → Option Bytes
ffmpeg_arg [] = none
ffmpeg_arg (a ∷ args) =
    let rest = ffmpeg_arg args in
    elim (cut_prefix a (ascii "--ffmpeg=")) [
      | some v ↦ some v
      | none ↦ elim (next_arg a args) [ some b ↦ some b | none ↦ rest ]
    ]

abbrev arg_of : Process → Option Bytes
arg_of p = elim p.cmdline [
  | err e ↦ none
  | ok text ↦
      let args = split 0 text in
      if not p.is_dir then none else if any looks_like args then ffmpeg_arg args else none
]

abbrev first_some : Option Bytes → Bytes → Bytes
first_some none rest = rest
first_some (some v) rest = v

unfoldable pub ffmpeg_of : List Process → Bytes
ffmpeg_of [] = []
ffmpeg_of (p ∷ ps) = first_some (arg_of p) (ffmpeg_of ps)

-- `proc` is the answer of os.ReadDir.
unfoldable pub ffmpeg_from_jellyfin : Result (List Process) → Bytes
ffmpeg_from_jellyfin (err e) = []
ffmpeg_from_jellyfin (ok ps) = ffmpeg_of ps

abbrev pub system_ffmpeg : Bytes
system_ffmpeg = ascii "/run/current-system/sw/bin/ffmpeg"

abbrev last_of : List Bytes → Result Bytes
last_of [] = err no_ffmpeg
last_of (m ∷ []) = ok m
last_of (m ∷ n ∷ ms) = last_of (n ∷ ms)

abbrev last_match : Result (List Bytes) → Result Bytes
last_match (err e) = err e
last_match (ok ms) = last_of ms

abbrev exists : Option Bool → Bool
exists none = false
exists (some is_dir) = true

abbrev is_plain : Option Bool → Bool
is_plain none = false
is_plain (some is_dir) = not is_dir

-- `stat` is `none` where os.Stat fails, and else whether the path is a directory; `matches` is the
-- answer of filepath.Glob.
unfoldable pub find_ffmpeg :
    Result (List Process) → (Bytes → Option Bool) → Result (List Bytes) → Result Bytes
find_ffmpeg proc stat matches =
    let p = ffmpeg_from_jellyfin proc in
    if not (equal p []) && exists (stat p)
    then ok p
    else if is_plain (stat system_ffmpeg)
    then ok system_ffmpeg
    else last_match matches
