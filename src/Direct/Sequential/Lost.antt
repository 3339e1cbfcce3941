-- ===== src/Direct/Sequential/Lost.antt =====
-- Which errors `runSequentialMax` reports.
use mathlib.Core.Option.{some-injective}
use nixos_fleet.Base.{
  ℕ, List, [], ◌∷◌, ◌≡◌, ◌≢◌, refl, ◌∙◌, subst, Option, none, some, All, Bytes, arith, Bool-cases,
  inl, inr,
}
use nixos_fleet.Base.Float.{Float64}
use nixos_fleet.Base.Int.{ℤ, sub_ℕ, leb_ℤ}
use nixos_fleet.Direct.Player.{ReadEnd, more, eof, failed, Step, again, stop, buf_len, min_ℕ}
use nixos_fleet.Direct.Sequential.{
  ReadRound, Reader, take_in, next_read, read_once, reader_checked, reader_round, reader_loop,
  first_reader,
}

-- The context is not done, and a read that fails returns no bytes, as one of the kernel does.
abbrev FailsEmpty : ℕ → ReadEnd → Type 0
FailsEmpty n (failed e) = n ≡ 0
FailsEmpty n _ = Unit

abbrev pub IsPlain : ReadRound → Type 0
IsPlain r = (r.ctx ≡ none) × FailsEmpty r.offer r.read_end

module _ {ℓ} {F : Type ℓ} ⦃f : Float64 F⦄ where
  abbrev HasError : Bytes → Step (Reader F) → Type 0
  HasError e (again st) = st.error ≡ e
  HasError e (stop st) = st.error ≡ e

  next_read-HasError :
      (offer : ℕ) (end : ReadEnd) (st : Reader F)
      → FailsEmpty offer end
      → HasError st.error (next_read (min_ℕ offer buf_len) end st)
  unfolding next_read
  next_read-HasError offer more st h = ground arith
  next_read-HasError offer eof st h = refl
  next_read-HasError offer (failed e) st h = rw h refl

  take_in-error : (n got : ℕ) (st : Reader F) → (take_in n got st).error ≡ st.error
  unfolding take_in
  take_in-error n got st = refl

  read_once-HasError :
      (r : ReadRound) (st : Reader F)
      → FailsEmpty r.offer r.read_end
      → HasError st.error (read_once r st)
  unfolding read_once
  read_once-HasError r st h =
      let n = min_ℕ r.offer buf_len in
      subst (λ e. HasError e (next_read n r.read_end (take_in n r.got st)))
        (take_in-error n r.got st) (next_read-HasError r.offer r.read_end (take_in n r.got st) h)

  reader_checked-HasError :
      (start : ℕ) (run_for : ℤ) (r : ReadRound) (st : Reader F) (ctx : Option Bytes)
      → ctx ≡ none
      → FailsEmpty r.offer r.read_end
      → HasError st.error (reader_checked start run_for r st ctx)
  reader_checked-HasError start run_for r st (some e) c h = absurd (cc)
  reader_checked-HasError start run_for r st none c h =
      elim (Bool-cases (leb_ℤ run_for (sub_ℕ r.now start))) [
        | inl over ↦ rw over refl
        | inr time ↦ rw time (read_once-HasError r st h)
      ]

  reader_round-HasError :
      (start : ℕ) (run_for : ℤ) (r : ReadRound) (st : Reader F)
      → IsPlain r
      → HasError st.error (reader_round start run_for r st)
  unfolding reader_round
  reader_round-HasError start run_for r st (c, h) =
      reader_checked-HasError start run_for r st r.ctx c h

  none-ne-some : {x : Reader F} → none ≢ some x
  none-ne-some e = cc

  after_step :
      (rest : Reader F → Option (Reader F)) (s : Step (Reader F)) (e : Bytes) {final : Reader F}
      → ((st : Reader F) → rest st ≡ some final → final.error ≡ st.error)
      → HasError e s
      → elim s [ again next ↦ rest next | stop st ↦ some st ] ≡ some final
      → final.error ≡ e
  after_step rest (again next) e keep h found = keep next found ∙ h
  after_step rest (stop st) e keep h found =
      subst (λ (r : Reader F). r.error ≡ e) (some-injective _ _ found) h

  reader_loop-same_error :
      (start : ℕ) (run_for : ℤ) (rs : List ReadRound) (st : Reader F) {final : Reader F}
      → All IsPlain rs
      → reader_loop start run_for rs st ≡ some final
      → final.error ≡ st.error
  unfolding reader_loop
  reader_loop-same_error start run_for [] st h e = absurd (none-ne-some e)
  reader_loop-same_error start run_for (r ∷ rs) st (p, h) e =
      after_step (reader_loop start run_for rs) (reader_round start run_for r st) st.error
        (λ next found. reader_loop-same_error start run_for rs next h found)
        (reader_round-HasError start run_for r st p) e

  -- Where the context is never done and each read that fails returns no bytes, the loop of the
  -- sequential read ends with no error, whatever reads failed.
  pub reader_loop-no_error :
      (start : ℕ) (run_for : ℤ) (rounds : List ReadRound) {final : Reader F}
      → All IsPlain rounds
      → reader_loop start run_for rounds (first_reader start) ≡ some final
      → final.error ≡ []
  unfolding first_reader
  reader_loop-no_error start run_for rounds h e =
      reader_loop-same_error start run_for rounds (first_reader start) h e
