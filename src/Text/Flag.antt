-- ===== src/Text/Flag.antt =====
-- Package flag with ExitOnError: what FlagSet.Parse takes from the arguments, and strconv.ParseBool.
use nixos_fleet.Base.{
  ℕ, ◌==◌, Bool, true, false, ◌||◌, List, [], ◌∷◌, Option, none, some, if◌then◌else◌, Bytes, ascii,
  Result, ok, err,
}
use nixos_fleet.Text.Cut.{equal}

-- Kinds of a flag, by what a value does to the variables: a Boolean flag can stand alone.
pub data Kind {ℓ} (O : Type ℓ) : Type ℓ where
  switch : (Bool → O → O) → Kind O
  valued : (Bytes → O → Result O) → Kind O

-- How an argument is read: the flags end before it, or behind it; it is a flag, and has taken no
-- argument or the next one; the help is asked for; or it is wrong.
pub data Reading {ℓ} (O : Type ℓ) : Type ℓ where
  ends ends_behind asks_help wrong : Reading O
  took took_next : O → Reading O

-- How it ends: the variables with the arguments left, or an exit of the process.
pub data Parsed {ℓ} (O : Type ℓ) : Type ℓ where
  parsed : O → List Bytes → Parsed O
  help bad : Parsed O

abbrev one_of : Bytes → List Bytes → Bool
one_of s [] = false
one_of s (w ∷ ws) = equal s w || one_of s ws

abbrev trues : List Bytes
trues = ascii "1" ∷ ascii "t" ∷ ascii "T" ∷ ascii "true" ∷ ascii "TRUE" ∷ ascii "True" ∷ []

abbrev falses : List Bytes
falses = ascii "0" ∷ ascii "f" ∷ ascii "F" ∷ ascii "false" ∷ ascii "FALSE" ∷ ascii "False" ∷ []

unfoldable pub parse_bool : Bytes → Option Bool
parse_bool s = if one_of s trues then some true else if one_of s falses then some false else none

-- A flag's name, and its value where there is a `=`, which cannot come first.
pub record Flag : Type 0 where
  pub name : Bytes
  pub value : Option Bytes

abbrev longer : ℕ → Flag → Flag
longer c l = record l { name = c ∷ l.name }

unfoldable pub cut_value : Bytes → Flag
cut_value [] = record { name = []; value = none }
cut_value (c ∷ cs) =
    if c == b'=' then record { name = []; value = some cs } else longer c (cut_value cs)

-- What stands behind the dashes.
pub data Shape : Type 0 where
  plain dashes malformed : Shape
  flag : Flag → Shape

abbrev named : Bytes → Shape
named [] = malformed
named (c ∷ cs) =
    if c == b'-' then malformed else if c == b'=' then malformed else flag (longer c (cut_value cs))

abbrev behind_dash : Bytes → Shape
behind_dash [] = plain
behind_dash (c ∷ cs) =
    if c == b'-' then elim cs [ [] ↦ dashes | d ∷ ds ↦ named (d ∷ ds) ] else named (c ∷ cs)

unfoldable pub shape : Bytes → Shape
unfolding cut_value
shape [] = plain
shape (c ∷ cs) = if c == b'-' then behind_dash cs else plain

-- The flags that were declared, by their names.
unfoldable pub find_flag {ℓ} : {O : Type ℓ} → List (Bytes × Kind O) → Bytes → Option (Kind O)
find_flag [] s = none
find_flag ((n, k) ∷ fs) s = if equal s n then some k else find_flag fs s

module _ {ℓ} {O : Type ℓ} where
  abbrev pub set_switch : (Bool → O → O) → Option Bytes → O → Reading O
  set_switch set none o = took (set true o)
  set_switch set (some v) o = elim (parse_bool v) [ none ↦ wrong | some b ↦ took (set b o) ]

  abbrev pub set_value : (O → Reading O) → Result O → Reading O
  set_value taken (ok o) = taken o
  set_value taken (err e) = wrong

  abbrev pub with_next : (Bytes → O → Result O) → Option Bytes → O → Reading O
  with_next set none o = wrong
  with_next set (some v) o = set_value took_next (set v o)

  abbrev pub apply_kind : Option (Kind O) → Flag → Option Bytes → O → Reading O
  apply_kind none l next o =
      if equal l.name (ascii "help") || equal l.name (ascii "h") then asks_help else wrong
  apply_kind (some (switch set)) l next o = set_switch set l.value o
  apply_kind (some (valued set)) l next o = elim l.value [
    | none ↦ with_next set next o
    | some v ↦ set_value took (set v o)
  ]

module _ {ℓ} {O : Type ℓ} (formal : Bytes → Option (Kind O)) where
  abbrev pub apply_shape : Shape → Option Bytes → O → Reading O
  apply_shape plain next o = ends
  apply_shape dashes next o = ends_behind
  apply_shape malformed next o = wrong
  apply_shape (flag l) next o = apply_kind (formal l.name) l next o

  -- parseOne, on an argument and the one behind it.
  unfoldable pub parse_one : Bytes → Option Bytes → O → Reading O
  parse_one a next o = apply_shape (shape a) next o

  unfoldable pub parse_flags : List Bytes → O → Parsed O
  parse_flags [] o = parsed o []
  parse_flags (a ∷ []) o = elim (parse_one a none o) [
    | ends ↦ parsed o (a ∷ [])
    | ends_behind ↦ parsed o []
    | asks_help ↦ help
    | wrong ↦ bad
    | took o' ↦ parsed o' []
    | took_next o' ↦ parsed o' []
  ]
  parse_flags (a ∷ b ∷ rest) o = elim (parse_one a (some b) o) [
    | ends ↦ parsed o (a ∷ b ∷ rest)
    | ends_behind ↦ parsed o (b ∷ rest)
    | asks_help ↦ help
    | wrong ↦ bad
    | took o' ↦ parse_flags (b ∷ rest) o'
    | took_next o' ↦ parse_flags rest o'
  ]
