-- ===== src/Text/Words.antt =====
-- strings.Fields and strings.TrimSpace.
use nixos_fleet.Base.{
  ℕ, zero, suc, ltb, leb, ◌==◌, Bool, ◌&&◌, ◌||◌, List, [], ◌∷◌, ◌++◌, if◌then◌else◌, Bytes,
}

-- The ASCII part of unicode.IsSpace: tab, newline, vertical tab, form feed, return and blank.
abbrev is_ascii_space : ℕ → Bool
is_ascii_space c = (leb 9 c && leb c 13) || c == b' '

-- U+1680, U+2000 to U+200A, U+2028, U+2029, U+202F, U+205F and U+3000.
wide_space : ℕ → ℕ → Bytes → ℕ
wide_space c d [] = 0
wide_space c d (e ∷ _) =
    if (c == 0xE1 && d == 0x9A && e == 0x80)
      || (c == 0xE2
          && d == 0x80
          && ((leb 0x80 e && leb e 0x8A) || e == 0xA8 || e == 0xA9 || e == 0xAF))
      || (c == 0xE2 && d == 0x81 && e == 0x9F)
      || (c == 0xE3 && d == 0x80 && e == 0x80)
    then 3
    else 0

-- U+0085 and U+00A0, and the wider ones.
multibyte_space : ℕ → Bytes → ℕ
unfolding wide_space
multibyte_space c [] = 0
multibyte_space c (d ∷ rest) =
    if c == 0xC2 && (d == 0x85 || d == 0xA0) then 2 else wide_space c d rest

-- The bytes of the white-space character at the head, and 0 where none stands there.
unfoldable pub space_width : ℕ → Bytes → ℕ
unfolding multibyte_space
space_width c rest =
    if is_ascii_space c then 1 else if ltb c 0x80 then 0 else multibyte_space c rest

abbrev flush : Bytes → List Bytes → List Bytes
flush [] ws = ws
flush (c ∷ w) ws = (c ∷ w) ∷ ws

-- `skip` bytes of a white-space character are still to pass; `word` is the field under way.
unfoldable pub fields_from : ℕ → Bytes → Bytes → List Bytes
fields_from skip word [] = flush word []
fields_from (suc skip) word (c ∷ cs) = fields_from skip word cs
fields_from zero word (c ∷ cs) = elim (space_width c cs) [
  | zero ↦ fields_from 0 (word ++ c ∷ []) cs
  | suc more ↦ flush word (fields_from more [] cs)
]

unfoldable pub fields : Bytes → List Bytes
unfolding fields_from space_width
fields = fields_from 0 []

-- Leading white space is dropped.
trim_left : ℕ → Bytes → Bytes
unfolding space_width
trim_left skip [] = []
trim_left (suc skip) (c ∷ cs) = trim_left skip cs
trim_left zero (c ∷ cs) = elim (space_width c cs) [ zero ↦ c ∷ cs | suc more ↦ trim_left more cs ]

-- White space is held back until something follows it.
trim_right : ℕ → Bytes → Bytes → Bytes
unfolding space_width
trim_right skip held [] = []
trim_right (suc skip) held (c ∷ cs) = trim_right skip (held ++ c ∷ []) cs
trim_right zero held (c ∷ cs) = elim (space_width c cs) [
  | zero ↦ held ++ (c ∷ trim_right 0 [] cs)
  | suc more ↦ trim_right more (held ++ c ∷ []) cs
]

unfoldable pub trim_space : Bytes → Bytes
unfolding trim_left trim_right
trim_space s = trim_right 0 [] (trim_left 0 s)
