-- ===== src/Measure/Memory/Reading.antt =====
-- What `memAvailableKiB` takes from /proc/meminfo.
use nixos_fleet.Base.{ℕ, true, false, List, [], ◌∷◌, ◌++◌, ◌≡◌, refl, ◌∙◌, All, arith, Bytes, ok}
use nixos_fleet.Measure.Memory.{mem_available, second_number, mem_lines, mem_available_kib}
use nixos_fleet.Text.Cut.{has_prefix, has_prefix-append}
use nixos_fleet.Text.Lines.{scan_lines}
use nixos_fleet.Text.Words.{fields}
use nixos_fleet.Text.Render.{Spells, word, fields-Spells, Writes, parse_uint-Writes}

second_number-Writes :
    (name : Bytes) {w : Bytes} (ws : List Bytes) {n : ℕ}
    → Writes w n
    → second_number (name ∷ w ∷ ws) ≡ n
unfolding second_number
second_number-Writes name {w} ws d = ground (arith, parse_uint-Writes d)

mem_lines-wanted :
    (line : Bytes) (later : List Bytes)
    → has_prefix line mem_available ≡ true
    → mem_lines (line ∷ later) ≡ second_number (fields line)
unfolding mem_lines
mem_lines-wanted line later h = rw h

abbrev pub IsOther : Bytes → Type 0
IsOther line = has_prefix line mem_available ≡ false

mem_lines-append :
    (before : List Bytes) (line : Bytes) (later : List Bytes)
    → All IsOther before
    → mem_lines (before ++ (line ∷ later)) ≡ mem_lines (line ∷ later)
unfolding mem_lines
mem_lines-append [] line later h = refl
mem_lines-append (l ∷ ls) line later (o, h) = rw o (mem_lines-append ls line later h)

mem_available_kib-lines : (text : Bytes) → mem_available_kib (ok text) ≡ mem_lines (scan_lines text)
unfolding mem_available_kib
mem_available_kib-lines text = refl

-- Of the lines that the scanner hands on, the first that begins with MemAvailable: is the one
-- that counts: where a blank and a decimal uint64 number follow the word there, the result is
-- that number, whatever stands behind it and on later lines.
pub mem_available_kib-Spells :
    (text : Bytes) {s w : Bytes} {ws : List Bytes} {n : ℕ} (before later : List Bytes)
    → scan_lines text ≡ before ++ ((mem_available ++ (b' ' ∷ s)) ∷ later)
    → All IsOther before
    → Spells s (w ∷ ws)
    → Writes w n
    → mem_available_kib (ok text) ≡ n
mem_available_kib-Spells text {s} {w} {ws} before later e h t d =
    let line = mem_available ++ (b' ' ∷ s) in
    let spelled : Spells line (mem_available ∷ w ∷ ws) =
      word b' ' (ground arith, omega arith) refl t in
    mem_available_kib-lines text
    ∙ rw (e, mem_lines-append before line later h)
        (mem_lines-wanted line later (has_prefix-append mem_available (b' ' ∷ s))
          ∙ rw (fields-Spells spelled) (second_number-Writes mem_available ws d))
