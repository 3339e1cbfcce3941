-- ===== src/Direct/Windows.antt =====
-- directplay.go: the one-second windows of `runSequentialMax` and `runPlayerSim`.
pub mod Schedule
use nixos_fleet.Base.{ℕ, zero, suc, ◌+◌, ◌-◌, ◌/◌, ◌^◌, leb, true, false, List, [], ◌∷◌, ◌++◌}
use nixos_fleet.Base.Float.{Float64, of_uint}

-- The variables `winBytes`, `windows` and `nextWin`; times are in nanoseconds.
pub record Windows {ℓ} (F : Type ℓ) : Type ℓ where
  pub bytes : ℕ
  pub closed : List F
  pub next : ℕ

abbrev pub second : ℕ
second = 10 ^ 9

module _ {ℓ} {F : Type ℓ} ⦃f : Float64 F⦄ where
  unfoldable pub mbps : ℕ → F
  mbps bytes = f.div (f.mul (of_uint 8) (of_uint bytes)) (of_uint (10 ^ 6))

  -- The body of the loop `for !nextWin.After(now)`.
  unfoldable pub close_window : Windows F → Windows F
  close_window w = record {
    bytes = 0;
    closed = w.closed ++ mbps w.bytes ∷ [];
    next = w.next + second;
  }

  unfoldable pub roll : ℕ → ℕ → Windows F → Windows F
  roll zero now w = w
  roll (suc fuel) now w = elim (leb w.next now) [
    | true ↦ roll fuel now (close_window w)
    | false ↦ w
  ]

  -- A round moves `next` on by a second, so these rounds are enough.
  unfoldable pub roll_to : ℕ → Windows F → Windows F
  roll_to now w = roll (suc ((now - w.next) / second)) now w
