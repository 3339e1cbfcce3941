-- ===== src/Direct/Sequential.antt =====
-- directplay.go: `runSequentialMax`, which reads an NFS file as fast as it comes. The readings of the
-- clock and the answers of the file are given, a round of the loop for each.
pub mod Total
pub mod Lost
use nixos_fleet.Base.{
  ℕ, ◌+◌, ◌-◌, ◌^◌, ltb, ◌==◌, Bool, true, ◌||◌, List, [], ◌∷◌, ◌++◌, Option, none, some,
  if◌then◌else◌, Bytes, ascii,
}
use nixos_fleet.Base.Float.{Float64, of_uint, seconds}
use nixos_fleet.Base.Int.{ℤ, pos, sub_ℕ, ltb_ℤ, leb_ℤ}
use nixos_fleet.Base.Word.{add64}
use nixos_fleet.Direct.Phase.{
  DirectPlayPhase, new_phase, reported_delta, Run, finished, waiting, panicked,
}
use nixos_fleet.Direct.Player.{ReadEnd, more, eof, failed, Step, again, stop, buf_len, min_ℕ}
use nixos_fleet.Direct.Stats.{WindowStats, window_stats}
use nixos_fleet.Direct.Windows.{Windows, second, mbps, roll_to}
use nixos_fleet.Measure.Rates.{mib}
use nixos_fleet.Nfs.Stats.{NfsSnap}

-- A round: ctx.Err(), the time at its start, the bytes that the file has for the read, the read's
-- error, and the time when it returned.
pub record ReadRound : Type 0 where
  pub ctx : Option Bytes
  pub now : ℕ
  pub offer : ℕ
  pub read_end : ReadEnd
  pub got : ℕ

-- The variables of the loop; `error` is a field of `ph`.
pub record Reader {ℓ} (F : Type ℓ) : Type ℓ where
  pub total : ℕ
  pub windows : Windows F
  pub error : Bytes

-- What the run meets.
pub record ReadEnv : Type 0 where
  pub open_error : Option Bytes
  pub seek_error : Option Bytes
  pub nfs0 : NfsSnap
  pub nfs1 : NfsSnap
  pub start : ℕ
  pub rounds : List ReadRound
  pub closing : ℕ
  pub ended : ℕ

module _ {ℓ} {F : Type ℓ} ⦃f : Float64 F⦄ where
  -- The bytes go into the total and the window under way, and the windows that are over close.
  unfoldable pub take_in : ℕ → ℕ → Reader F → Reader F
  take_in n got st = record st {
    total = add64 st.total n;
    windows = roll_to got (record (st.windows) { bytes = add64 st.windows.bytes n });
  }

  -- The two tests behind a read.
  unfoldable pub next_read : ℕ → ReadEnd → Reader F → Step (Reader F)
  next_read n more st = if n == 0 then stop st else again st
  next_read n eof st = stop st
  next_read n (failed e) st = if n == 0 then stop st else stop (record st { error = e })

  unfoldable pub read_once : ReadRound → Reader F → Step (Reader F)
  read_once r st = let n = min_ℕ r.offer buf_len in next_read n r.read_end (take_in n r.got st)

  abbrev reader_checked : ℕ → ℤ → ReadRound → Reader F → Option Bytes → Step (Reader F)
  reader_checked start run_for r st (some e) = stop (record st { error = e })
  reader_checked start run_for r st none =
      if leb_ℤ run_for (sub_ℕ r.now start) then stop st else read_once r st

  unfoldable pub reader_round : ℕ → ℤ → ReadRound → Reader F → Step (Reader F)
  reader_round start run_for r st = reader_checked start run_for r st r.ctx

  -- The loop; `none` where it would go on behind the last round.
  unfoldable pub reader_loop : ℕ → ℤ → List ReadRound → Reader F → Option (Reader F)
  reader_loop start run_for [] st = none
  reader_loop start run_for (r ∷ rs) st = elim (reader_round start run_for r st) [
    | again next ↦ reader_loop start run_for rs next
    | stop final ↦ some final
  ]

  unfoldable pub first_reader : ℕ → Reader F
  first_reader start = record {
    total = 0;
    windows = record { bytes = 0; closed = []; next = start + second };
    error = [];
  }

  -- The window under way at the end of the loop counts for at least 0.2 s.
  unfoldable pub close_last : ℕ → Windows F → List F
  close_last closing w =
      let dt = seconds (sub_ℕ closing (w.next - second)) in
      let least = if f.lt dt (f.decimal 2 1) then f.decimal 2 1 else dt in
      if ltb 0 w.bytes then w.closed ++ f.div (mbps w.bytes) least ∷ [] else w.closed

  abbrev sequential_phase : DirectPlayPhase F
  sequential_phase = new_phase (ascii "nfs_sequential_max") (ascii "sequential")

  abbrev read_phase : ReadEnv → Reader F → List F → Option (WindowStats F) → Run (DirectPlayPhase F)
  read_phase env st windows none = panicked
  read_phase env st windows (some stats) =
      let wall = seconds {F = F} (sub_ℕ env.ended env.start) in
      finished (record sequential_phase {
        wall_seconds = wall;
        read_mib = mib st.total;
        avg_mbps =
            if f.lt (of_uint 0) wall
            then f.div (f.div (f.mul (of_uint 8) (of_uint st.total)) (of_uint (10 ^ 6))) wall
            else of_uint 0;
        min_window_mbps = stats.low;
        p5_window_mbps = stats.p5;
        max_window_mbps = stats.high;
        error = st.error;
        nfs = reported_delta env.nfs0 env.nfs1;
        windows = windows;
      })

  unfoldable pub read_result : ReadEnv → Option (Reader F) → Run (DirectPlayPhase F)
  read_result env none = waiting
  read_result env (some st) =
      let windows = close_last env.closing st.windows in
      read_phase env st windows (window_stats windows)

  unfoldable pub opened_reader : ℤ → ReadEnv → Option Bytes → Run (DirectPlayPhase F)
  opened_reader run_for env (some e) = finished (record sequential_phase { error = e })
  opened_reader run_for env none =
      read_result env (reader_loop env.start run_for env.rounds (first_reader env.start))

  unfoldable pub run_sequential_max : ℤ → ℤ → ReadEnv → Run (DirectPlayPhase F)
  run_sequential_max offset run_for env = elim env.open_error [
    | some e ↦ finished (record sequential_phase { error = e })
    | none ↦ opened_reader run_for env (if ltb_ℤ (pos 0) offset then env.seek_error else none)
  ]
