-- ===== src/Text/Render.antt =====
-- How the kernel writes words and decimal numbers, and that `fields` and `parse_uint` read them.
use mathlib.Core.List.{append_assoc, append-nil}
use nixos_fleet.Base.{
  ℕ, ◌+◌, ◌-◌, ◌*◌, ◌≤◌, ◌<◌, leb, ◌==◌, true, ◌&&◌, ◌||◌, List, [], ◌∷◌, ◌++◌, ◌≡◌, ◌≢◌, ◌∙◌, refl,
  ap, none, arith, Bytes, All, zero,
}
use nixos_fleet.Base.Word.{u64_mod}
use nixos_fleet.Text.Words.{space_width, fields_from, fields}
use nixos_fleet.Text.Number.{parse_digits, parse_uint}

-- The printing ASCII bytes.
abbrev pub IsPrinting : ℕ → Type 0
IsPrinting c = (0x21 ≤ c) × (c ≤ 0x7E)

abbrev pub IsWord : Bytes → Type 0
IsWord w = (w ≢ []) × All IsPrinting w

abbrev pub IsBlank : ℕ → Type 0
IsBlank c = (leb 9 c && leb c 13 || c == b' ') ≡ true

-- The text is these words, with runs of ASCII white space round and between them.
pub data Spells : Bytes → List Bytes → Type 0 where
  nil : Spells [] []
  blank : {c : ℕ} {s : Bytes} {ws : List Bytes} → IsBlank c → Spells s ws → Spells (c ∷ s) ws
  last : {w : Bytes} → IsWord w → Spells w (w ∷ [])
  word :
      {w s : Bytes} {ws : List Bytes} (c : ℕ)
      → IsWord w
      → IsBlank c
      → Spells s ws
      → Spells (w ++ (c ∷ s)) (w ∷ ws)

space_width-IsPrinting : (c : ℕ) (s : Bytes) → IsPrinting c → space_width c s ≡ zero
unfolding space_width
space_width-IsPrinting c s h = ground arith

space_width-IsBlank : (c : ℕ) (s : Bytes) → IsBlank c → space_width c s ≡ 1
unfolding space_width
space_width-IsBlank c s h = ground arith

fields_lem : (s : Bytes) → fields s ≡ fields_from 0 [] s
unfolding fields
fields_lem s = refl

fields_from-printing :
    (c : ℕ) (seen rest : Bytes)
    → IsPrinting c
    → fields_from 0 seen (c ∷ rest) ≡ fields_from 0 (seen ++ c ∷ []) rest
unfolding fields_from
fields_from-printing c seen rest p = rw (space_width-IsPrinting c rest p, fields_from)

fields_from-blank :
    (c : ℕ) (rest : Bytes) → IsBlank c → fields_from 0 [] (c ∷ rest) ≡ fields_from 0 [] rest
unfolding fields_from
fields_from-blank c rest b = rw (space_width-IsBlank c rest b, fields_from)

fields_from-end :
    (x c : ℕ) (seen rest : Bytes)
    → IsBlank c
    → fields_from 0 (x ∷ seen) (c ∷ rest) ≡ (x ∷ seen) ∷ fields_from 0 [] rest
unfolding fields_from
fields_from-end x c seen rest b = rw (space_width-IsBlank c rest b, fields_from)

fields_from-append :
    (w seen rest : Bytes)
    → All IsPrinting w
    → fields_from 0 seen (w ++ rest) ≡ fields_from 0 (seen ++ w) rest
fields_from-append [] seen rest h = rw append-nil
fields_from-append (c ∷ w) seen rest (p, h) =
    fields_from-printing c seen (w ++ rest) p
    ∙ fields_from-append w (seen ++ c ∷ []) rest h
    ∙ rw append_assoc

fields_from-word :
    (w : Bytes) (c : ℕ) (rest : Bytes)
    → IsWord w
    → IsBlank c
    → fields_from 0 [] (w ++ (c ∷ rest)) ≡ w ∷ fields_from 0 [] rest
fields_from-word [] c rest h b = absurd (h.0 refl)
fields_from-word (x ∷ w) c rest h b =
    fields_from-append (x ∷ w) [] (c ∷ rest) h.1 ∙ fields_from-end x c w rest b

fields_from-last : (w : Bytes) → IsWord w → fields_from 0 [] w ≡ w ∷ []
fields_from-last [] h = absurd (h.0 refl)
fields_from-last (x ∷ w) h =
    rw (← append-nil (x ∷ w))
      (fields_from-append (x ∷ w) [] [] h.1 ∙ (unfold fields_from in rw append-nil))

fields_from-Spells : {s : Bytes} {ws : List Bytes} → Spells s ws → fields_from 0 [] s ≡ ws
fields_from-Spells nil = unfold fields_from in refl
fields_from-Spells (blank {c} {s} b t) = fields_from-blank c s b ∙ fields_from-Spells t
fields_from-Spells (last {w} h) = fields_from-last w h
fields_from-Spells (word {w} {s} c h b t) =
    fields_from-word w c s h b ∙ ap (◌∷◌ w) (fields_from-Spells t)

-- `fields` reads back the words of such a text.
pub fields-Spells : {s : Bytes} {ws : List Bytes} → Spells s ws → fields s ≡ ws
fields-Spells {s} t = fields_lem s ∙ fields_from-Spells t

-- The number that decimal digits stand for, after those that gave `n`.
abbrev pub value : ℕ → Bytes → ℕ
value n [] = n
value n (c ∷ cs) = value (n * 10 + (c - b'0')) cs

abbrev pub IsDigit : ℕ → Type 0
IsDigit c = (b'0' ≤ c) × (c ≤ b'9')

-- A decimal writing of a uint64.
pub record Writes (s : Bytes) (n : ℕ) : Type 0 where
  pub digits : All IsDigit s
  pub ne_nil : s ≢ []
  pub value_eq : value 0 s ≡ n
  pub fits : n < u64_mod

le-value : (s : Bytes) (n : ℕ) → n ≤ value n s
le-value [] n = omega arith
le-value (c ∷ cs) n = omega (arith, le-value cs (n * 10 + (c - b'0')))

parse_digits-value :
    (s : Bytes) (n : ℕ) → All IsDigit s → value n s < u64_mod → parse_digits n s ≡ (value n s, none)
unfolding parse_digits
parse_digits-value [] n h b = refl
parse_digits-value (c ∷ cs) n (d, h) b =
    ground (arith, le-value cs (n * 10 + (c - b'0')), parse_digits-value cs (n * 10 + (c - b'0')) h)

pub parse_uint-Writes : {s : Bytes} {n : ℕ} → Writes s n → parse_uint s ≡ (n, none)
unfolding parse_uint
parse_uint-Writes {s = []} w = absurd (w.ne_nil refl)
parse_uint-Writes {s = c ∷ cs} {n} w =
    parse_digits-value (c ∷ cs) 0 w.digits (omega (arith, w.value_eq, w.fits))
    ∙ ap (λ (m : ℕ). (m, none)) w.value_eq
