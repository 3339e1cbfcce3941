-- ===== src/Direct/Progress/Newest.antt =====
-- What each call of `onSample` is given, by the log that ffmpeg wrote until then.
use nixos_fleet.Base.{
  Bool, false, ◌||◌, List, [], ◌∷◌, ◌++◌, ◌≡◌, refl, ap, ◌∙◌, Option, none, some, if◌then◌else◌,
  arith, Bytes, ascii, All, Option-cases, inl, inr, ◌≢◌,
}
use nixos_fleet.Base.Float.{Float64, of_uint}
use nixos_fleet.Direct.Progress.{
  Sample, ends_sample, speed_of, progress_value, progress_lines, parse_ffmpeg_progress,
}
use nixos_fleet.Text.Cut.{equal, equal_iff, cut, value_at}
use nixos_fleet.Text.Lines.{scan_lines, IsLine, scan_lines-append}

-- A log of these lines.
unfoldable pub unlines : List Bytes → Bytes
unlines [] = []
unlines (l ∷ ls) = l ++ (b'\n' ∷ unlines ls)

scan_lines-unlines : (ls : List Bytes) → All IsLine ls → scan_lines (unlines ls) ≡ ls
unfolding unlines
scan_lines-unlines [] h = unfold scan_lines in refl
scan_lines-unlines (l ∷ ls) (h, hs) =
    scan_lines-append l (unlines ls) h ∙ ap (◌∷◌ l) (scan_lines-unlines ls hs)

-- The value that a line gives to the key, where it does.
abbrev pub given : Bytes → Bytes → Option Bytes
given key line = value_at key (cut b'=' line)

-- A block of the log ends with progress=continue or progress=end.
abbrev pub is_end : Bytes → Bool
is_end line = elim (given (ascii "progress") line) [
  | none ↦ false
  | some v ↦ equal v (ascii "continue") || equal v (ascii "end")
]

-- The lines until the end of each block, the newest first, behind those of `seen`.
abbrev pub blocks : List Bytes → List Bytes → List (List Bytes)
blocks seen [] = []
blocks seen (line ∷ ls) =
    let later = blocks (line ∷ seen) ls in if is_end line then (line ∷ seen) ∷ later else later

speed-ne-time : ascii "speed" ≢ ascii "out_time_us"
speed-ne-time e = cc

module _ {ℓ} {F : Type ℓ} ⦃f : Float64 F⦄ where
  -- The newest speed, and the newest time that is above 0, in microseconds; 0 where there is none.
  abbrev pub newest_speed : List Bytes → F
  newest_speed [] = of_uint 0
  newest_speed (line ∷ older) = elim (given (ascii "speed") line) [
    | none ↦ newest_speed older
    | some v ↦ speed_of v
  ]

  abbrev newest_positive : F → F → F
  newest_positive us older = if f.lt (of_uint 0) us then f.div us (of_uint 1_000_000) else older

  abbrev pub newest_time : List Bytes → F
  newest_time [] = of_uint 0
  newest_time (line ∷ older) = elim (given (ascii "out_time_us") line) [
    | none ↦ newest_time older
    | some v ↦ newest_positive (f.parse v) (newest_time older)
  ]

  abbrev pub sample_at : List Bytes → Sample F
  sample_at seen = record { speed = newest_speed seen; out_time = newest_time seen }

  abbrev pub samples_of : List (List Bytes) → List (Sample F)
  samples_of [] = []
  samples_of (b ∷ bs) = sample_at b ∷ samples_of bs

  sample_at-other :
      (line : Bytes) (seen : List Bytes)
      → cut b'=' line ≡ none
      → sample_at (line ∷ seen) ≡ sample_at seen
  sample_at-other line seen e = ground (arith, e)

  sample_at-value :
      (line : Bytes) (seen : List Bytes) (k v : Bytes)
      → cut b'=' line ≡ some (k, v)
      → sample_at (line ∷ seen) ≡ progress_value (sample_at seen) k v
  unfolding progress_value
  sample_at-value line seen k v e =
      ground
        (arith, e, equal_iff k (ascii "speed"), equal_iff k (ascii "out_time_us"), speed-ne-time)

  progress_lines-value :
      (s : Sample F) (line : Bytes) (ls : List Bytes) (k v : Bytes)
      → cut b'=' line ≡ some (k, v)
      → let s' = progress_value s k v in
        let rest = progress_lines s' ls in
        progress_lines s (line ∷ ls) ≡ (if is_end line then s' ∷ rest else rest)
  unfolding progress_lines ends_sample
  progress_lines-value s line ls k v e = ground (arith, e)

  progress_lines-other :
      (s : Sample F) (line : Bytes) (ls : List Bytes)
      → cut b'=' line ≡ none
      → (progress_lines s (line ∷ ls) ≡ progress_lines s ls) × (is_end line ≡ false)
  unfolding progress_lines
  progress_lines-other s line ls e = ground (arith, e)

  progress_lines-newest :
      (seen ls : List Bytes) → progress_lines (sample_at seen) ls ≡ samples_of (blocks seen ls)
  progress_lines-newest seen [] = unfold progress_lines in refl
  progress_lines-newest seen (line ∷ ls) =
      let later = progress_lines-newest (line ∷ seen) ls in
      elim (Option-cases (cut b'=' line)) [
        | inl e ↦ ground (
          arith,
          later,
          sample_at-other line seen e,
          progress_lines-other (sample_at seen) line ls e,
        )
        | inr ((k, v), e) ↦ ground (
          arith,
          later,
          sample_at-value line seen k v e,
          progress_lines-value (sample_at seen) line ls k v e,
        )
      ]

  -- For a log of lines that fit the scanner's buffer, `onSample` is called once at the end of each
  -- block, in order, with the newest speed and the newest time above 0 of all the log until there,
  -- in seconds, and 0 where none was written yet.
  pub parse_ffmpeg_progress-newest :
      (ls : List Bytes)
      → All IsLine ls
      → parse_ffmpeg_progress (unlines ls) ≡ samples_of (blocks [] ls)
  unfolding parse_ffmpeg_progress
  parse_ffmpeg_progress-newest ls h = rw (scan_lines-unlines ls h) (progress_lines-newest [] ls)
