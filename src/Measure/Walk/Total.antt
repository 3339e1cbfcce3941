-- ===== src/Measure/Walk/Total.antt =====
-- What `dir_bytes` returns, by the files in the order of the walk.
use mathlib.Core.Path.{fun_ext}
use nixos_fleet.Base.{
  ℕ, ◌+◌, ◌%◌, ◌<◌, List, [], ◌∷◌, ◌++◌, ◌≡◌, refl, Option, none, some, length, arith, Error,
  Result, ok, err,
}
use nixos_fleet.Base.Order.{sum, add64_regroup}
use nixos_fleet.Base.Word.{add64, u64_mod}
use nixos_fleet.Measure.Walk.{
  Entry, Entries, file, dir, end, entry, Tally, Visit, and_then, walk, walk_entries, dir_bytes,
}

-- The answers that the walk meets, in its order: sizes of files, and errors.
abbrev mutual
  pub answers : Entry → List (Result ℕ)
  answers (file r) = r ∷ []
  answers (dir none es) = answers_of es
  answers (dir (some e) es) = err e ∷ []

  pub answers_of : Entries → List (Result ℕ)
  answers_of end = []
  answers_of (entry x xs) = answers x ++ answers_of xs

-- The sizes before the first error, and that error.
abbrev pub sizes : List (Result ℕ) → List ℕ
sizes [] = []
sizes (ok n ∷ rs) = n ∷ sizes rs
sizes (err e ∷ rs) = []

abbrev pub first_error : List (Result ℕ) → Option Error
first_error [] = none
first_error (ok n ∷ rs) = first_error rs
first_error (err e ∷ rs) = some e

-- The callback over the answers in a row.
abbrev tally : List (Result ℕ) → Tally → Visit
tally [] t = (t, none)
tally (ok n ∷ rs) t = tally rs (record { size = add64 t.size n; files = t.files + 1 })
tally (err e ∷ rs) t = (t, some e)

tally-append :
    (rs qs : List (Result ℕ)) (t : Tally) → tally (rs ++ qs) t ≡ and_then (tally rs t) (tally qs)
tally-append [] qs t = refl
tally-append (ok n ∷ rs) qs t = tally-append rs qs _
tally-append (err e ∷ rs) qs t = refl

mutual
  unfolding walk

  walk-tally : (x : Entry) (t : Tally) → walk x t ≡ tally (answers x) t
  walk-tally (file (ok n)) t = refl
  walk-tally (file (err e)) t = refl
  walk-tally (dir none es) t = walk_entries-tally es t
  walk-tally (dir (some e) es) t = refl

  walk_entries-tally : (xs : Entries) (t : Tally) → walk_entries xs t ≡ tally (answers_of xs) t
  walk_entries-tally end t = refl
  walk_entries-tally (entry x xs) t =
      rw (walk-tally x t, fun_ext (walk_entries-tally xs), tally-append (answers x))

tally-sum :
    (rs : List (Result ℕ)) (t : Tally)
    → t.size < u64_mod
    → tally rs t ≡ (
      record { size = (t.size + sum (sizes rs)) % u64_mod; files = t.files + length (sizes rs) },
      first_error rs,
    )
tally-sum [] t b = ground arith
tally-sum (ok n ∷ rs) t b =
    let t' : Tally = record { size = add64 t.size n; files = t.files + 1 } in
    ground (
      arith,
      tally-sum rs t' (unfold add64 in omega arith),
      add64_regroup t.size n (sum (sizes rs)),
    )
tally-sum (err e ∷ rs) t b = ground arith

-- `dirBytes` counts the files up to the first error in the order of the walk and sums their sizes,
-- wrapped at 2 ^ 64; it returns both beside that error, or beside none where the walk meets none.
pub dir_bytes-answers :
    (root : Entry)
    → let met = answers root in
      dir_bytes (ok root) ≡ (sum (sizes met) % u64_mod, length (sizes met), first_error met)
unfolding dir_bytes
dir_bytes-answers root =
    let t : Tally = record { size = 0; files = 0 } in
    rw (walk-tally root t) (ground (arith, tally-sum (answers root) t (omega arith)))
