-- ===== src/Direct/Player.antt =====
-- directplay.go: `runPlayerSim`, a player with a finite buffer over an NFS file. The readings of the
-- clock and the answers of the file are given, a round of the loop for each.
pub mod Invariant
pub mod Ends
pub mod Unplayed
use nixos_fleet.Base.{
  ℕ, zero, suc, ◌+◌, ◌-◌, ◌^◌, ltb, leb, ◌==◌, Bool, true, false, not, ◌&&◌, ◌||◌, List, [], ◌∷◌,
  ◌++◌, Option, none, some, if◌then◌else◌, Bytes, ascii,
}
use nixos_fleet.Base.Float.{Float64, of_uint, seconds}
use nixos_fleet.Base.Int.{ℤ, pos, negsuc, sub_ℕ, ltb_ℤ, leb_ℤ, ◌+ℤ◌}
use nixos_fleet.Base.Word.{add64}
use nixos_fleet.Direct.Phase.{
  DirectPlayPhase, new_phase, reported_delta, Run, finished, waiting, panicked,
}
use nixos_fleet.Direct.Stats.{WindowStats, window_stats}
use nixos_fleet.Direct.Windows.{Windows, second, roll_to}
use nixos_fleet.Measure.Rates.{mib}
use nixos_fleet.Nfs.Stats.{NfsSnap}

-- The error of a read.
pub data ReadEnd : Type 0 where
  more eof : ReadEnd
  failed : Bytes → ReadEnd

-- A round: ctx.Err(), the time at its start, the time when a sleep would end, the bytes that the
-- file has for a read, the read's error, and the time when it returns.
pub record Round : Type 0 where
  pub ctx : Option Bytes
  pub now : ℕ
  pub woke : ℕ
  pub offer : ℕ
  pub read_end : ReadEnd
  pub got : ℕ

-- The variables of the loop; `error` and `preroll_seconds` are fields of `ph`.
pub record Player {ℓ} (F : Type ℓ) : Type ℓ where
  pub level : F
  pub playing : Bool
  pub play_start : ℕ
  pub total : ℕ
  pub stall_n : ℕ
  pub stall_dur : ℤ
  pub windows : Windows F
  pub last : ℕ
  pub preroll_seconds : F
  pub error : Bytes

-- What does not change in the loop: `capBytes` is `preroll` too.
pub record Setup {ℓ} (F : Type ℓ) : Type ℓ where
  pub start : ℕ
  pub run_for : ℤ
  pub drain_bps : F
  pub cap_bytes : F

pub data Step {ℓ} (A : Type ℓ) : Type ℓ where
  again stop : A → Step A

-- `len(buf)`, 1 << 20
abbrev pub buf_len : ℕ
buf_len = 2 ^ 20

abbrev pub min_ℕ : ℕ → ℕ → ℕ
min_ℕ a b = if ltb a b then a else b

-- `if space < 1 { space = 1 }`
abbrev at_least_one : ℤ → ℕ
at_least_one (pos n) = if ltb n 1 then 1 else n
at_least_one (negsuc n) = 1

module _ {ℓ} {F : Type ℓ} ⦃f : Float64 F⦄ where
  abbrev underrun : Setup F → F → Player F → Player F
  underrun c need st =
      let miss = f.div (f.sub need st.level) c.drain_bps in
      record st {
        stall_dur = st.stall_dur +ℤ f.trunc (f.mul miss (of_uint second));
        stall_n = st.stall_n + 1;
        level = of_uint 0;
      }

  -- The closure `drain`.
  unfoldable pub drain : Setup F → ℤ → Player F → Player F
  drain c dt st =
      let need = f.mul c.drain_bps (seconds dt) in
      if leb_ℤ dt (pos 0) || not st.playing
      then st
      else if f.lt st.level need
      then underrun c need st
      else record st { level = f.sub st.level need }

  -- `drain(t.Sub(last)); last = t`
  unfoldable pub drain_to : Setup F → ℕ → Player F → Player F
  drain_to c t st = record (drain c (sub_ℕ t st.last) st) { last = t }

  unfoldable pub to_read : Setup F → Player F → ℕ
  to_read c st =
      if st.playing
      then min_ℕ (at_least_one (f.trunc (f.sub c.cap_bytes st.level))) buf_len
      else buf_len

  -- The bytes read go into the total, the window under way and the buffer.
  unfoldable pub receive : ℕ → Player F → Player F
  receive n st = record st {
    total = add64 st.total n;
    windows = record (st.windows) { bytes = add64 st.windows.bytes n };
    level = f.add st.level (of_uint n);
  }

  abbrev begun : Setup F → ℕ → Player F → Player F
  begun c got st = record st {
    playing = true;
    play_start = got;
    preroll_seconds = seconds (sub_ℕ got c.start);
  }

  unfoldable pub begin_play : Setup F → ℕ → Player F → Player F
  begin_play c got st = if not st.playing && f.le c.cap_bytes st.level then begun c got st else st

  unfoldable pub roll_windows : ℕ → Player F → Player F
  roll_windows got st = record st { windows = roll_to got st.windows }

  -- The loop's end or its next round, by the bytes and the error of the read.
  unfoldable pub after_read : ℕ → ReadEnd → Player F → Step (Player F)
  after_read n more st = again st
  after_read n eof st = if n == 0 then stop st else again st
  after_read n (failed e) st = stop (record st { error = e })

  unfoldable pub read_round : Setup F → Round → Player F → Step (Player F)
  read_round c r st =
      let n = min_ℕ r.offer (to_read c st) in
      after_read n r.read_end
        (roll_windows r.got (begin_play c r.got (receive n (drain_to c r.got st))))

  unfoldable pub timed_round : Setup F → Round → Player F → Step (Player F)
  timed_round c r st =
      if leb_ℤ c.run_for (sub_ℕ r.now c.start)
      then stop (drain_to c r.now st)
      else if st.playing && f.le (f.sub c.cap_bytes (of_uint 1)) st.level
      then again (drain_to c r.woke st)
      else read_round c r st

  abbrev checked_round : Setup F → Round → Player F → Option Bytes → Step (Player F)
  checked_round c r st none = timed_round c r st
  checked_round c r st (some e) = stop (record st { error = e })

  unfoldable pub player_round : Setup F → Round → Player F → Step (Player F)
  player_round c r st = checked_round c r st r.ctx

  -- The loop; `none` where it would go on behind the last round.
  unfoldable pub player_loop : Setup F → List Round → Player F → Option (Player F)
  player_loop c [] st = none
  player_loop c (r ∷ rs) st = elim (player_round c r st) [
    | again next ↦ player_loop c rs next
    | stop final ↦ some final
  ]

  unfoldable pub first_state : ℕ → Player F
  first_state start = record {
    level = of_uint 0;
    playing = false;
    play_start = 0;
    total = 0;
    stall_n = 0;
    stall_dur = pos 0;
    windows = record { bytes = 0; closed = []; next = start + second };
    last = start;
    preroll_seconds = of_uint 0;
    error = [];
  }

  -- What follows the loop, with the two later readings of the clock.
  unfoldable pub player_phase :
      Setup F → Player F → ℕ → ℕ → Option NfsSnap → WindowStats F → DirectPlayPhase F
  player_phase c st ended played delta stats =
      let wall = seconds {F = F} (sub_ℕ ended c.start) in
      record (new_phase (ascii "player_buffer") (ascii "player")) {
        wall_seconds = wall;
        read_mib = mib st.total;
        avg_mbps =
            if f.lt (of_uint 0) wall
            then f.div (f.div (f.mul (of_uint 8) (of_uint st.total)) (of_uint (10 ^ 6))) wall
            else of_uint 0;
        min_window_mbps = stats.low;
        p5_window_mbps = stats.p5;
        max_window_mbps = stats.high;
        preroll_seconds = st.preroll_seconds;
        playing_seconds = if st.playing then seconds (sub_ℕ played st.play_start) else of_uint 0;
        stall_count = st.stall_n;
        stall_seconds = seconds st.stall_dur;
        error = if not st.playing then ascii "buffer never reached preroll" else st.error;
        nfs = delta;
        windows = st.windows.closed;
      }

-- What the run meets: the errors of os.Open and of Seek, the NFS counters before and after, and
-- the clock at the start, in the rounds and behind the loop.
pub record PlayerEnv : Type 0 where
  pub open_error : Option Bytes
  pub seek_error : Option Bytes
  pub nfs0 : NfsSnap
  pub nfs1 : NfsSnap
  pub start : ℕ
  pub rounds : List Round
  pub ended : ℕ
  pub played : ℕ

module _ {ℓ} {F : Type ℓ} ⦃f : Float64 F⦄ where
  abbrev pub with_stats :
      (WindowStats F → DirectPlayPhase F) → Option (WindowStats F) → Run (DirectPlayPhase F)
  with_stats build none = panicked
  with_stats build (some stats) = finished (build stats)

  unfoldable pub player_result : Setup F → PlayerEnv → Option (Player F) → Run (DirectPlayPhase F)
  player_result c env none = waiting
  player_result c env (some st) =
      with_stats (player_phase c st env.ended env.played (reported_delta env.nfs0 env.nfs1))
        (window_stats st.windows.closed)

  abbrev failed_phase : Bytes → Run (DirectPlayPhase F)
  failed_phase e =
      finished (record (new_phase (ascii "player_buffer") (ascii "player")) { error = e })

  unfoldable pub opened_player : Setup F → PlayerEnv → Option Bytes → Run (DirectPlayPhase F)
  opened_player c env none = player_result c env (player_loop c env.rounds (first_state env.start))
  opened_player c env (some e) = failed_phase e

  unfoldable pub run_player_sim : ℤ → ℤ → F → ℤ → PlayerEnv → Run (DirectPlayPhase F)
  run_player_sim offset run_for drain_bps buffer env =
      let c : Setup F = record {
        start = env.start;
        run_for = run_for;
        drain_bps = drain_bps;
        cap_bytes = f.mul drain_bps (seconds buffer);
      } in
      elim env.open_error [
        | some e ↦ failed_phase e
        | none ↦ opened_player c env (if ltb_ℤ (pos 0) offset then env.seek_error else none)
      ]
