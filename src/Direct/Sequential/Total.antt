-- ===== src/Direct/Sequential/Total.antt =====
-- What the windows of `runSequentialMax` hold.
use mathlib.Core.Option.{some-injective}
use nixos_fleet.Base.{
  ℕ, ◌==◌, List, [], ◌∷◌, ◌≡◌, ◌≢◌, refl, subst, Option, none, some, Bytes, Bool-cases, inl, inr,
}
use nixos_fleet.Base.Float.{Float64}
use nixos_fleet.Base.Int.{ℤ, sub_ℕ, leb_ℤ}
use nixos_fleet.Base.Word.{add64}
use nixos_fleet.Direct.Player.{ReadEnd, more, eof, failed, Step, again, stop, buf_len, min_ℕ}
use nixos_fleet.Direct.Sequential.{
  ReadRound, Reader, take_in, next_read, read_once, reader_checked, reader_round, reader_loop,
  first_reader,
}
use nixos_fleet.Direct.Windows.Schedule.{Holds, add64-Holds, roll_to-Holds}

module _ {ℓ} {F : Type ℓ} ⦃f : Float64 F⦄ where
  abbrev pub IsHeld : Reader F → Type ℓ
  IsHeld st = Holds st.total st.windows

  abbrev HoldsIn : Step (Reader F) → Type ℓ
  HoldsIn (again st) = IsHeld st
  HoldsIn (stop st) = IsHeld st

  take_in-IsHeld : (n got : ℕ) (st : Reader F) → IsHeld st → IsHeld (take_in n got st)
  unfolding take_in
  take_in-IsHeld n got st h =
      roll_to-Holds (add64 st.total n) got _ (add64-Holds st.total n st.windows h)

  next_read-HoldsIn :
      (n : ℕ) (end : ReadEnd) (st : Reader F) → IsHeld st → HoldsIn (next_read n end st)
  unfolding next_read
  next_read-HoldsIn n more st h = elim (Bool-cases (n == 0)) [ inl z ↦ rw z h | inr p ↦ rw p h ]
  next_read-HoldsIn n eof st h = h
  next_read-HoldsIn n (failed e) st h = elim (Bool-cases (n == 0)) [
    | inl z ↦ rw z h
    | inr p ↦ rw p h
  ]

  read_once-HoldsIn : (r : ReadRound) (st : Reader F) → IsHeld st → HoldsIn (read_once r st)
  unfolding read_once
  read_once-HoldsIn r st h =
      let n = min_ℕ r.offer buf_len in
      next_read-HoldsIn n r.read_end (take_in n r.got st) (take_in-IsHeld n r.got st h)

  reader_checked-HoldsIn :
      (start : ℕ) (run_for : ℤ) (r : ReadRound) (st : Reader F) (ctx : Option Bytes)
      → IsHeld st
      → HoldsIn (reader_checked start run_for r st ctx)
  reader_checked-HoldsIn start run_for r st (some e) h = h
  reader_checked-HoldsIn start run_for r st none h =
      elim (Bool-cases (leb_ℤ run_for (sub_ℕ r.now start))) [
        | inl over ↦ rw over h
        | inr time ↦ rw time (read_once-HoldsIn r st h)
      ]

  reader_round-HoldsIn :
      (start : ℕ) (run_for : ℤ) (r : ReadRound) (st : Reader F)
      → IsHeld st
      → HoldsIn (reader_round start run_for r st)
  unfolding reader_round
  reader_round-HoldsIn start run_for r st h = reader_checked-HoldsIn start run_for r st r.ctx h

  none-ne-some : {x : Reader F} → none ≢ some x
  none-ne-some e = cc

  after_step :
      (rest : Reader F → Option (Reader F)) (s : Step (Reader F)) {final : Reader F}
      → ((st : Reader F) → IsHeld st → rest st ≡ some final → IsHeld final)
      → HoldsIn s
      → elim s [ again next ↦ rest next | stop st ↦ some st ] ≡ some final
      → IsHeld final
  after_step rest (again next) keep h e = keep next h e
  after_step rest (stop st) keep h e = subst IsHeld (some-injective _ _ e) h

  reader_loop-keeps :
      (start : ℕ) (run_for : ℤ) (rs : List ReadRound) (st : Reader F) {final : Reader F}
      → IsHeld st
      → reader_loop start run_for rs st ≡ some final
      → IsHeld final
  unfolding reader_loop
  reader_loop-keeps start run_for [] st h e = absurd (none-ne-some e)
  reader_loop-keeps start run_for (r ∷ rs) st h e =
      after_step (reader_loop start run_for rs) (reader_round start run_for r st)
        (λ next hn en. reader_loop-keeps start run_for rs next hn en)
        (reader_round-HoldsIn start run_for r st h) e

  first_reader-IsHeld : (start : ℕ) → IsHeld (first_reader {F = F} start)
  unfolding first_reader
  first_reader-IsHeld start = record { sizes = []; closed_eq = refl; total_eq = refl }

  -- However the loop of the sequential read ends, its closed windows are the Mbps of byte counts
  -- which, with the bytes of the window under way, add up to the total that was read, mod 2 ^ 64.
  pub reader_loop-IsHeld :
      (start : ℕ) (run_for : ℤ) (rounds : List ReadRound) {final : Reader F}
      → reader_loop start run_for rounds (first_reader start) ≡ some final
      → IsHeld final
  reader_loop-IsHeld start run_for rounds =
      reader_loop-keeps start run_for rounds (first_reader start) (first_reader-IsHeld start)
