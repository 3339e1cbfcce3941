-- ===== src/Direct/Player/Invariant.antt =====
-- What holds of the variables of `runPlayerSim` in every round.
use mathlib.Core.Option.{some-injective}
use nixos_fleet.Base.{
  ℕ, ◌==◌, Bool, true, false, not, ◌&&◌, ◌||◌, List, [], ◌∷◌, ◌≡◌, ◌≢◌, refl, sym, ◌∙◌, subst,
  Option, none, some, if◌then◌else◌, arith, Bytes, Bool-cases, inl, inr,
}
use nixos_fleet.Base.Float.{Float64, of_uint, seconds}
use nixos_fleet.Base.Int.{ℤ, pos, sub_ℕ, leb_ℤ}
use nixos_fleet.Direct.Player.{
  ReadEnd, more, eof, failed, Round, Player, Setup, Step, again, stop, drain, drain_to, receive,
  begun, begin_play, roll_windows, after_read, read_round, timed_round, checked_round, player_round,
  player_loop, first_state, min_ℕ, to_read,
}
use nixos_fleet.Direct.Windows.Schedule.{Holds, add64-Holds, roll_to-Holds}

true-ne-false : true ≢ false
true-ne-false e = cc

playing_of : (a b : Bool) → (a || not b) ≡ false → b ≡ true
playing_of a b h = ground arith

module _ {ℓ} {F : Type ℓ} ⦃f : Float64 F⦄ where
  pub record IsSound (st : Player F) : Type ℓ where
    -- no stall is counted before the playback begins
    pub quiet : st.playing ≡ false → (st.stall_n ≡ 0) × (st.stall_dur ≡ pos 0)
    -- the windows hold all that was read
    pub holds : Holds st.total st.windows

  abbrev InStep : Step (Player F) → Type ℓ
  InStep (again st) = IsSound st
  InStep (stop st) = IsSound st

  if-IsSound :
      (test : Bool) (x y : Player F) → IsSound x → IsSound y → IsSound (if test then x else y)
  if-IsSound true x y hx hy = hx
  if-IsSound false x y hx hy = hy

  if-InStep :
      (test : Bool) (x y : Step (Player F)) → InStep x → InStep y → InStep (if test then x else y)
  if-InStep true x y hx hy = hx
  if-InStep false x y hx hy = hy

  none-ne-some : {x : Player F} → none ≢ some x
  none-ne-some e = cc

  drain-IsSound : (c : Setup F) (dt : ℤ) (st : Player F) → IsSound st → IsSound (drain c dt st)
  unfolding drain
  drain-IsSound c dt st h = elim (Bool-cases (leb_ℤ dt (pos 0) || not st.playing)) [
    | inl still ↦ rw still h
    | inr moving ↦ rw moving (elim (Bool-cases (f.lt st.level (f.mul c.drain_bps (seconds dt)))) [
      | inl short ↦ rw short (record {
        quiet = λ e. absurd (true-ne-false (sym (playing_of _ _ moving) ∙ e));
        holds = h.holds;
      })
      | inr enough ↦ rw enough (record { quiet = h.quiet; holds = h.holds })
    ])
  ]

  drain_to-IsSound : (c : Setup F) (t : ℕ) (st : Player F) → IsSound st → IsSound (drain_to c t st)
  unfolding drain_to
  drain_to-IsSound c t st h =
      let drained = drain-IsSound c (sub_ℕ t st.last) st h in
      record { quiet = drained.quiet; holds = drained.holds }

  receive-IsSound : (n : ℕ) (st : Player F) → IsSound st → IsSound (receive n st)
  unfolding receive
  receive-IsSound n st h = record {
    quiet = h.quiet;
    holds = add64-Holds st.total n st.windows h.holds;
  }

  begin_play-IsSound :
      (c : Setup F) (got : ℕ) (st : Player F) → IsSound st → IsSound (begin_play c got st)
  unfolding begin_play
  begin_play-IsSound c got st h =
      if-IsSound (not st.playing && f.le c.cap_bytes st.level) (begun c got st) st
        (record { quiet = λ e. absurd (true-ne-false e); holds = h.holds }) h

  roll_windows-IsSound : (got : ℕ) (st : Player F) → IsSound st → IsSound (roll_windows got st)
  unfolding roll_windows
  roll_windows-IsSound got st h = record {
    quiet = h.quiet;
    holds = roll_to-Holds st.total got st.windows h.holds;
  }

  after_read-InStep :
      (n : ℕ) (end : ReadEnd) (st : Player F) → IsSound st → InStep (after_read n end st)
  unfolding after_read
  after_read-InStep n more st h = h
  after_read-InStep n eof st h = if-InStep (n == 0) (stop st) (again st) h h
  after_read-InStep n (failed e) st h = record { quiet = h.quiet; holds = h.holds }

  read_round-InStep :
      (c : Setup F) (r : Round) (st : Player F) → IsSound st → InStep (read_round c r st)
  unfolding read_round
  read_round-InStep c r st h =
      let n = min_ℕ r.offer (to_read c st) in
      let drained = drain_to-IsSound c r.got st h in
      let received = receive-IsSound n (drain_to c r.got st) drained in
      let begun = begin_play-IsSound c r.got (receive n (drain_to c r.got st)) received in
      let st' = begin_play c r.got (receive n (drain_to c r.got st)) in
      after_read-InStep n r.read_end (roll_windows r.got st') (roll_windows-IsSound r.got st' begun)

  timed_round-InStep :
      (c : Setup F) (r : Round) (st : Player F) → IsSound st → InStep (timed_round c r st)
  unfolding timed_round
  timed_round-InStep c r st h =
      if-InStep (leb_ℤ c.run_for (sub_ℕ r.now c.start)) (stop (drain_to c r.now st)) _
        (drain_to-IsSound c r.now st h)
        (if-InStep (st.playing && f.le (f.sub c.cap_bytes (of_uint 1)) st.level)
          (again (drain_to c r.woke st)) (read_round c r st) (drain_to-IsSound c r.woke st h)
          (read_round-InStep c r st h))

  checked_round-InStep :
      (c : Setup F) (r : Round) (st : Player F) (ctx : Option Bytes)
      → IsSound st
      → InStep (checked_round c r st ctx)
  checked_round-InStep c r st none h = timed_round-InStep c r st h
  checked_round-InStep c r st (some e) h = record { quiet = h.quiet; holds = h.holds }

  player_round-InStep :
      (c : Setup F) (r : Round) (st : Player F) → IsSound st → InStep (player_round c r st)
  unfolding player_round
  player_round-InStep c r st h = checked_round-InStep c r st r.ctx h

  after_round :
      (rest : Player F → Option (Player F)) (s : Step (Player F)) {final : Player F}
      → ((st : Player F) → IsSound st → rest st ≡ some final → IsSound final)
      → InStep s
      → elim s [ again next ↦ rest next | stop st ↦ some st ] ≡ some final
      → IsSound final
  after_round rest (again next) keep h e = keep next h e
  after_round rest (stop st) keep h e = subst IsSound (some-injective _ _ e) h

  player_loop-keeps :
      (c : Setup F) (rs : List Round) (st : Player F) {final : Player F}
      → IsSound st
      → player_loop c rs st ≡ some final
      → IsSound final
  unfolding player_loop
  player_loop-keeps c [] st h e = absurd (none-ne-some e)
  player_loop-keeps c (r ∷ rs) st h e =
      after_round (player_loop c rs) (player_round c r st)
        (λ next hn en. player_loop-keeps c rs next hn en) (player_round-InStep c r st h) e

  first_state-IsSound : (start : ℕ) → IsSound (first_state {F = F} start)
  unfolding first_state
  first_state-IsSound start = record {
    quiet = λ _. (refl, refl);
    holds = record { sizes = []; closed_eq = refl; total_eq = refl };
  }

  -- However the loop of the player ends, its windows are the Mbps of byte counts which, with the
  -- bytes of the window under way, add up to the total that was read, mod 2 ^ 64; and where the
  -- playback never began, no stall is counted and no stalled time.
  pub player_loop-IsSound :
      (c : Setup F) (rounds : List Round) (start : ℕ) {final : Player F}
      → player_loop c rounds (first_state start) ≡ some final
      → IsSound final
  player_loop-IsSound c rounds start =
      player_loop-keeps c rounds (first_state start) (first_state-IsSound start)
