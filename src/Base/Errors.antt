-- ===== src/Base/Errors.antt =====
-- Go's `(value, error)` where the value is not read beside an error, and the errors of the code.
use Prim.Native.Nat.{ℕ}
use Prim.Native.Char.{code}
use Prim.Native.String.{String}
use mathlib.Core.Path.{◌≡◌, refl}
use mathlib.Core.List.{List, [], ◌∷◌}
use mathlib.Core.Logic.{◌⊎◌, inl, inr}

-- A Go string: its bytes.
abbrev pub Bytes : Type 0
Bytes = List ℕ

-- The bytes of an ASCII literal.
abbrev pub ascii : String → Bytes
ascii String.[] = []
ascii (String.◌∷◌ c s) = code c ∷ ascii s

-- `system` is an error of the operating system or of a library, with its text; the others are
-- the errors that the code makes.
pub data Error : Type 0 where
  system : Bytes → Error
  num_syntax num_range : Error
  empty_proc_stat not_in_proc_mounts no_ffmpeg : Error
  unexpected_proc_stat short_diskstat : Bytes → Error
  ffprobe_failed : Error → Error
  mount_failed : Error → (output : Bytes) → Error
  no_segments : (exit : Bytes) → Error → (tail : Bytes) → Error

pub data Result {ℓ} (A : Type ℓ) : Type ℓ where
  err : Error → Result A
  ok : A → Result A

pub Result-cases {ℓ} :
    {A : Type ℓ} (r : Result A) → ((a : A) × (r ≡ ok a)) ⊎ ((e : Error) × (r ≡ err e))
Result-cases (ok a) = inl (a, refl)
Result-cases (err e) = inr (e, refl)

-- Go's `if err != nil { return …, err }`.
infixl 5 ◌>>=◌
abbrev pub ◌>>=◌ {ℓ κ} : {V : Type ℓ} {W : Type κ} (r : Result V) (next : V → Result W) → Result W
err e >>= next = err e
ok v >>= next = next v

pub >>=-eq-ok {ℓ κ} :
    {V : Type ℓ} {W : Type κ} (r : Result V) (next : V → Result W) {w : W}
    → (r >>= next) ≡ ok w
    → (v : V) × (r ≡ ok v) × (next v ≡ ok w)
>>=-eq-ok (ok v) next h = (v, refl, h)
>>=-eq-ok (err e) next h = cc
