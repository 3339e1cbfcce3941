-- ===== src/Command/Ids/Written.antt =====
-- What `lookupIDs` reads.
use nixos_fleet.Base.{ℕ, ◌^◌, ◌≤◌, ◌<◌, [], ◌∷◌, ◌≡◌, refl, none, arith, Bytes, ok}
use nixos_fleet.Base.Int.{ℤ, pos}
use nixos_fleet.Base.Float.{minus}
use nixos_fleet.Command.Ids.{User, lookup_ids}
use nixos_fleet.Text.Number.{atoi}
use nixos_fleet.Text.Render.{Writes, IsDigit, parse_uint-Writes}

-- A decimal writing of an int64, with a sign or without.
pub data WritesInt (s : Bytes) : ℤ → Type 0 where
  unsigned : {n : ℕ} → Writes s n → n < 2 ^ 63 → WritesInt s (pos n)
  plus : {n : ℕ} (t : Bytes) → s ≡ b'+' ∷ t → Writes t n → n < 2 ^ 63 → WritesInt s (pos n)
  negative :
      {n : ℕ} {z : ℤ} (t : Bytes)
      → s ≡ b'-' ∷ t
      → Writes t n
      → n ≤ 2 ^ 63
      → z ≡ minus n
      → WritesInt s z

unsigned-atoi : (s : Bytes) {n : ℕ} → Writes s n → n < 2 ^ 63 → atoi s ≡ (pos n, none)
unfolding atoi
unsigned-atoi [] w h = absurd (w.ne_nil refl)
unsigned-atoi (c ∷ cs) {n} w h =
    let digit : IsDigit c = w.digits.0 in ground (arith, parse_uint-Writes w)

pub atoi-WritesInt : {s : Bytes} {z : ℤ} → WritesInt s z → atoi s ≡ (z, none)
unfolding atoi
atoi-WritesInt {s} (unsigned w h) = unsigned-atoi s w h
atoi-WritesInt (plus t e w h) = rw e (ground (arith, parse_uint-Writes w))
atoi-WritesInt (negative t e w h z) = rw e (ground (arith, parse_uint-Writes w))

-- For a user that is found, whose two texts are decimal writings of an int64, the two numbers are
-- returned.
pub lookup_ids-WritesInt :
    (u : User) {uid gid : ℤ}
    → WritesInt u.uid uid
    → WritesInt u.gid gid
    → lookup_ids (ok u) ≡ ok (record { uid = uid; gid = gid })
unfolding lookup_ids
lookup_ids-WritesInt u a b = ground (arith, atoi-WritesInt a, atoi-WritesInt b)
