-- ===== src/Text/Number.antt =====
-- strconv.ParseUint(s, 10, 64) and strconv.Atoi.
use nixos_fleet.Base.{
  ℕ, ◌+◌, ◌-◌, ◌*◌, ◌^◌, ◌<◌, ltb, leb, ◌==◌, Bool, true, false, not, ◌&&◌, [], ◌∷◌, Option, none,
  some, ◌≡◌, if◌then◌else◌, arith, Bytes, Error, num_syntax, num_range, Result, ok, err,
}
use nixos_fleet.Base.Int.{ℤ, pos, negsuc}
use nixos_fleet.Base.Float.{minus}
use nixos_fleet.Base.Word.{u64_mod}

abbrev is_digit : ℕ → Bool
is_digit c = leb b'0' c && leb c b'9'

-- The number that Go returns stands beside the error: 0, or the largest uint64.
unfoldable pub parse_digits : ℕ → Bytes → ℕ × Option Error
parse_digits n [] = (n, none)
parse_digits n (c ∷ cs) =
    let next = n * 10 + (c - b'0') in
    let rest = parse_digits next cs in
    if not (is_digit c)
    then (0, some num_syntax)
    else if leb u64_mod next
    then (u64_mod - 1, some num_range)
    else rest

unfoldable pub parse_uint : Bytes → ℕ × Option Error
unfolding parse_digits
parse_uint [] = (0, some num_syntax)
parse_uint (c ∷ cs) = parse_digits 0 (c ∷ cs)

-- The bounds of int64, where what ParseUint read is signed.
abbrev signed : Bool → ℕ × Option Error → ℤ × Option Error
signed false (n, none) =
    if ltb n (2 ^ 63) then (pos n, none) else (pos (2 ^ 63 - 1), some num_range)
signed true (n, none) =
    if leb n (2 ^ 63) then (minus n, none) else (negsuc (2 ^ 63 - 1), some num_range)
signed false (n, some num_range) = (pos (2 ^ 63 - 1), some num_range)
signed true (n, some num_range) = (negsuc (2 ^ 63 - 1), some num_range)
signed neg (n, some e) = (pos 0, some e)

unfoldable pub atoi : Bytes → ℤ × Option Error
atoi [] = (pos 0, some num_syntax)
atoi (c ∷ cs) =
    if c == b'-'
    then signed true (parse_uint cs)
    else if c == b'+'
    then signed false (parse_uint cs)
    else signed false (parse_uint (c ∷ cs))

-- `n, err := ...; if err != nil { return err }`.
abbrev pub checked {ℓ} : {N : Type ℓ} → N × Option Error → Result N
checked (n, none) = ok n
checked (n, some e) = err e

pub parse_digits-lt : (s : Bytes) (n : ℕ) → n < u64_mod → (parse_digits n s).0 < u64_mod
unfolding parse_digits
parse_digits-lt [] n h = h
parse_digits-lt (c ∷ cs) n h = ground (arith, parse_digits-lt cs (n * 10 + (c - b'0')))

-- Whatever the text, the number is a uint64.
pub parse_uint-lt : (s : Bytes) → (parse_uint s).0 < u64_mod
unfolding parse_uint
parse_uint-lt [] = omega arith
parse_uint-lt (c ∷ cs) = parse_digits-lt (c ∷ cs) 0 (omega arith)

pub checked-eq-ok : (p : ℕ × Option Error) {n : ℕ} → checked p ≡ ok n → p ≡ (n, none)
checked-eq-ok (m, none) e = cc
checked-eq-ok (m, some x) e = cc
