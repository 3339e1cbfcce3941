-- ===== src/Text/Format.antt =====
-- What the reports use of package fmt and of strings.TrimRight. How a float64 is printed and how a
-- string is quoted are parameters, and so is the text of an error.
use nixos_fleet.Base.{
  ℕ, zero, suc, ◌+◌, ◌-◌, ◌/◌, ◌%◌, ltb, ◌==◌, Bool, true, false, List, [], ◌∷◌, ◌++◌,
  if◌then◌else◌, Bytes, ascii, Error,
}
use nixos_fleet.Base.Int.{ℤ, pos, negsuc}

-- The verbs "%.nf", "%+.nf" and "%q".
pub record Verbs {ℓ} (F : Type ℓ) : Type ℓ where
  pub fixed : ℕ → F → Bytes
  pub signed : ℕ → F → Bytes
  pub quoted : Bytes → Bytes
  pub error : Error → Bytes

-- The pieces of a format, with the values between them.
abbrev pub concat : List Bytes → Bytes
concat [] = []
concat (s ∷ ss) = s ++ concat ss

abbrev digit : ℕ → ℕ
digit n = if ltb n 10 then b'0' + n else b'a' + (n - 10)

-- The digits of `n`, before those of `seen`; a number has no more digits than its size.
unfoldable digits : ℕ → ℕ → ℕ → Bytes → Bytes
digits base zero n seen = seen
digits base (suc k) n seen =
    let more = digits base k (n / base) (digit (n % base) ∷ seen) in
    if ltb n base then digit n ∷ seen else more

-- "%d" and "%x".
unfoldable pub decimal : ℕ → Bytes
unfolding digits
decimal n = digits 10 (suc n) n []

unfoldable pub decimal_ℤ : ℤ → Bytes
decimal_ℤ (pos n) = decimal n
decimal_ℤ (negsuc n) = b'-' ∷ decimal (suc n)

unfoldable pub hexadecimal : ℕ → Bytes
unfolding digits
hexadecimal n = digits 16 (suc n) n []

-- "%v" of a Boolean and of a slice of strings.
abbrev pub bool_text : Bool → Bytes
bool_text true = ascii "true"
bool_text false = ascii "false"

abbrev spaced : List Bytes → Bytes
spaced [] = []
spaced (w ∷ []) = w
spaced (w ∷ v ∷ ws) = w ++ (b' ' ∷ spaced (v ∷ ws))

abbrev pub list_text : List Bytes → Bytes
list_text ws = b'[' ∷ (spaced ws ++ ascii "]")

-- The runes of a text, by the bytes that do not go on with one.
abbrev runes : Bytes → ℕ
runes [] = 0
runes (c ∷ cs) = (if ltb c 128 then 1 else if ltb c 192 then 0 else 1) + runes cs

abbrev blanks : ℕ → Bytes
blanks zero = []
blanks (suc n) = b' ' ∷ blanks n

-- "%-ns", of a text of valid UTF-8.
abbrev pub left : ℕ → Bytes → Bytes
left n s = s ++ blanks (n - runes s)

-- strings.TrimRight(s, "\n").
abbrev trim_end : ℕ → Bytes → Bytes
trim_end c [] = if c == b'\n' then [] else c ∷ []
trim_end c (d ∷ ds) = c ∷ d ∷ ds

unfoldable pub trim_newlines : Bytes → Bytes
trim_newlines [] = []
trim_newlines (c ∷ cs) = trim_end c (trim_newlines cs)
