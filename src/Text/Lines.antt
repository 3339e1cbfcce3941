-- ===== src/Text/Lines.antt =====
-- bufio.Scanner over lines, with its limit on a token, and the split of a text at newlines.
use mathlib.Core.List.{append_assoc, append-nil}
use nixos_fleet.Base.{
  ℕ, ◌<◌, leb, ◌==◌, true, false, not, List, [], ◌∷◌, ◌++◌, ◌≡◌, refl, if◌then◌else◌, length, arith,
  Bytes, &&_iff,
}
use nixos_fleet.Text.Cut.{without}

-- bufio.MaxScanTokenSize: a line and its newline must fit the buffer.
abbrev pub max_token : ℕ
max_token = 65_536

drop_cr : Bytes → Bytes
drop_cr [] = []
drop_cr (c ∷ []) = if c == b'\r' then [] else c ∷ []
drop_cr (c ∷ d ∷ cs) = c ∷ drop_cr (d ∷ cs)

abbrev last_line : Bytes → List Bytes
last_line [] = []
last_line (c ∷ line) = (c ∷ line) ∷ []

-- The lines, each with what precedes it on the line in `line`. A last line needs no newline.
raw_lines : Bytes → Bytes → List Bytes
raw_lines line [] = last_line line
raw_lines line (c ∷ cs) = elim (c == b'\n') [
  | true ↦ line ∷ raw_lines [] cs
  | false ↦ raw_lines (line ++ c ∷ []) cs
]

-- The first line that does not fit the buffer ends the scan.
within_limit : List Bytes → List Bytes
unfolding drop_cr
within_limit [] = []
within_limit (l ∷ ls) =
    let rest = within_limit ls in if leb max_token (length l) then [] else drop_cr l ∷ rest

unfoldable pub scan_lines : Bytes → List Bytes
unfolding raw_lines within_limit
scan_lines text = within_limit (raw_lines [] text)

-- A line that the scanner hands on as it stands.
pub record IsLine (line : Bytes) : Type 0 where
  pub no_newline : without b'\n' line ≡ true
  pub no_return : without b'\r' line ≡ true
  pub fits : length line < max_token

drop_cr-without : (line : Bytes) → without b'\r' line ≡ true → drop_cr line ≡ line
unfolding drop_cr
drop_cr-without [] h = refl
drop_cr-without (c ∷ []) h = ground arith
drop_cr-without (c ∷ d ∷ cs) h = ground (arith, drop_cr-without (d ∷ cs))

raw_lines-append :
    (line seen rest : Bytes)
    → without b'\n' line ≡ true
    → raw_lines seen (line ++ (b'\n' ∷ rest)) ≡ (seen ++ line) ∷ raw_lines [] rest
unfolding raw_lines
raw_lines-append [] seen rest h = rw append-nil
raw_lines-append (c ∷ cs) seen rest h =
    let (other, h') = (&&_iff (not (c == b'\n')) (without b'\n' cs)).0 h in
    let off : (c == b'\n') ≡ false = ground arith in
    rw (off, raw_lines) (rw (raw_lines-append cs (seen ++ c ∷ []) rest h', append_assoc))

-- The scanner hands on the first line, and goes on behind its newline.
pub scan_lines-append :
    (line rest : Bytes) → IsLine line → scan_lines (line ++ (b'\n' ∷ rest)) ≡ line ∷ scan_lines rest
unfolding scan_lines
scan_lines-append line rest h =
    rw (raw_lines-append line [] rest h.no_newline)
      (ground (arith, drop_cr-without line h.no_return, h.fits))
