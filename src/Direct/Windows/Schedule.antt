-- ===== src/Direct/Windows/Schedule.antt =====
-- The windows close on time, and hold all that was read.
use mathlib.Core.List.{map-append}
use nixos_fleet.Base.{
  ℕ, zero, suc, ◌+◌, ◌-◌, ◌*◌, ◌/◌, ◌%◌, ◌≤◌, ◌<◌, leb, leb→le, List, [], ◌∷◌, ◌++◌, ◌≡◌, ◌∙◌, sym,
  ap, map, length, length-append, arith, Bool-cases, inl, inr,
}
use nixos_fleet.Base.Float.{Float64}
use nixos_fleet.Base.Order.{sum, sum-append}
use nixos_fleet.Base.Word.{u64_mod, add64}
use nixos_fleet.Direct.Windows.{Windows, second, mbps, close_window, roll, roll_to}

module _ {ℓ} {F : Type ℓ} ⦃f : Float64 F⦄ where
  -- The window under way is the one behind those that are closed, from `start` on.
  abbrev pub IsOnSchedule : ℕ → Windows F → Type 0
  IsOnSchedule start w = w.next ≡ start + second * suc (length w.closed)

  -- The bytes of the closed windows and of the one under way are all that was read, mod 2 ^ 64.
  pub record Holds (total : ℕ) (w : Windows F) : Type ℓ where
    pub sizes : List ℕ
    pub closed_eq : w.closed ≡ map mbps sizes
    pub total_eq : (sum sizes + w.bytes) % u64_mod ≡ total

  close_window-IsOnSchedule :
      (start : ℕ) (w : Windows F) → IsOnSchedule start w → IsOnSchedule start (close_window w)
  unfolding close_window
  close_window-IsOnSchedule start w h = omega (arith, length-append w.closed (mbps w.bytes ∷ []))

  close_window-Holds : (total : ℕ) (w : Windows F) → Holds total w → Holds total (close_window w)
  unfolding close_window
  close_window-Holds total w h = record {
    sizes = h.sizes ++ w.bytes ∷ [];
    closed_eq =
        ap (λ (l : List F). l ++ mbps w.bytes ∷ []) h.closed_eq
        ∙ sym (map-append mbps h.sizes (w.bytes ∷ []));
    total_eq = omega (arith, sum-append h.sizes (w.bytes ∷ []), h.total_eq);
  }

  roll-IsOnSchedule :
      (fuel start now : ℕ) (w : Windows F)
      → now < w.next + second * fuel
      → IsOnSchedule start w
      → w.next ≤ now + second
      → let r = roll fuel now w in IsOnSchedule start r × (now < r.next) × (r.next ≤ now + second)
  unfolding roll
  roll-IsOnSchedule zero start now w b h before = (h, omega arith, before)
  roll-IsOnSchedule (suc fuel) start now w b h before = elim (Bool-cases (leb w.next now)) [
    | inl late ↦
        rw (late, roll)
          (roll-IsOnSchedule fuel start now (close_window w) (unfold close_window in omega arith)
            (close_window-IsOnSchedule start w h)
            (unfold close_window in omega (arith, leb→le w.next now late)))
    | inr early ↦ rw (early, roll) (h, ground arith, before)
  ]

  roll-Holds : (fuel total now : ℕ) (w : Windows F) → Holds total w → Holds total (roll fuel now w)
  unfolding roll
  roll-Holds zero total now w h = h
  roll-Holds (suc fuel) total now w h = elim (Bool-cases (leb w.next now)) [
    | inl late ↦
        rw (late, roll) (roll-Holds fuel total now (close_window w) (close_window-Holds total w h))
    | inr early ↦ rw (early, roll) h
  ]

  -- At the time `now` every whole second since the start has its window, and no more: the window
  -- under way ends after `now`, and began no later.
  pub roll_to-IsOnSchedule :
      (start now : ℕ) (w : Windows F)
      → IsOnSchedule start w
      → w.next ≤ now + second
      → let r = roll_to now w in IsOnSchedule start r × (now < r.next) × (r.next ≤ now + second)
  roll_to-IsOnSchedule start now w h before =
      unfold roll_to in
      roll-IsOnSchedule (suc ((now - w.next) / second)) start now w (omega arith) h before

  pub roll_to-Holds : (total now : ℕ) (w : Windows F) → Holds total w → Holds total (roll_to now w)
  unfolding roll_to
  roll_to-Holds total now w h = roll-Holds (suc ((now - w.next) / second)) total now w h

  -- What a read of `n` bytes adds to both.
  pub add64-Holds :
      (total n : ℕ) (w : Windows F)
      → Holds total w
      → Holds (add64 total n) (record w { bytes = add64 w.bytes n })
  unfolding add64
  add64-Holds total n w h = record {
    sizes = h.sizes;
    closed_eq = h.closed_eq;
    total_eq = omega (arith, h.total_eq);
  }
