-- ===== src/Direct/Copy/Runs.antt =====
-- The stalls that the paced copy of `runFFmpegCopy` counts.
use nixos_fleet.Base.{
  ℕ, zero, suc, ◌+◌, ◌==◌, Bool, true, false, ◌&&◌, List, [], ◌∷◌, ◌≡◌, ◌∙◌, refl, ap, map,
  if◌then◌else◌, arith,
}
use nixos_fleet.Base.Float.{Float64, seconds}
use nixos_fleet.Base.Int.{sub_ℕ}
use nixos_fleet.Direct.Copy.{
  Copy, is_slow, count_slow, keep_min, add_window, on_sample, on_samples, first_copy,
}
use nixos_fleet.Direct.Progress.{Sample}

-- The runs of at least three slow samples in a row: one begins where three follow and the sample
-- before, if there is one, was not slow.
abbrev pub long_runs : Bool → List Bool → ℕ
long_runs was_slow [] = 0
long_runs was_slow (false ∷ bs) = long_runs false bs
long_runs true (true ∷ bs) = long_runs true bs
long_runs false (true ∷ true ∷ true ∷ bs) = suc (long_runs true (true ∷ true ∷ bs))
long_runs false (true ∷ bs) = long_runs true bs

-- The counters alone, over the samples' slowness.
abbrev count_runs : ℕ → ℕ → List Bool → ℕ
count_runs n run [] = n
count_runs n run (b ∷ bs) =
    count_runs (if b && suc run == 3 then suc n else n) (if b then suc run else 0) bs

-- The runs still to count behind a run of slow samples under way.
abbrev runs_behind : ℕ → List Bool → ℕ
runs_behind zero bs = long_runs false bs
runs_behind (suc zero) bs = long_runs false (true ∷ bs)
runs_behind (suc (suc zero)) bs = long_runs false (true ∷ true ∷ bs)
runs_behind (suc (suc (suc _))) bs = long_runs true bs

suc_right : (m n : ℕ) → suc m + n ≡ m + suc n
suc_right m n = omega arith

counted_once : (run n : ℕ) → (if suc (suc (suc (suc run))) == 3 then suc n else n) ≡ n
counted_once run n = ground arith

zero_left : (n : ℕ) → 0 + n ≡ n
zero_left n = omega arith

count_runs-runs_behind : (bs : List Bool) (n run : ℕ) → count_runs n run bs ≡ n + runs_behind run bs
count_runs-runs_behind [] n zero = omega arith
count_runs-runs_behind [] n (suc zero) = omega arith
count_runs-runs_behind [] n (suc (suc zero)) = omega arith
count_runs-runs_behind [] n (suc (suc (suc _))) = omega arith
count_runs-runs_behind (false ∷ bs) n zero = count_runs-runs_behind bs n 0
count_runs-runs_behind (false ∷ bs) n (suc zero) = count_runs-runs_behind bs n 0
count_runs-runs_behind (false ∷ bs) n (suc (suc zero)) = count_runs-runs_behind bs n 0
count_runs-runs_behind (false ∷ bs) n (suc (suc (suc _))) = count_runs-runs_behind bs n 0
count_runs-runs_behind (true ∷ bs) n zero = count_runs-runs_behind bs n 1
count_runs-runs_behind (true ∷ bs) n (suc zero) = count_runs-runs_behind bs n 2
count_runs-runs_behind (true ∷ bs) n (suc (suc zero)) =
    count_runs-runs_behind bs (suc n) 3 ∙ suc_right n (long_runs true bs)
count_runs-runs_behind (true ∷ bs) n (suc (suc (suc run))) =
    ap (λ m. count_runs m (suc (suc (suc (suc run)))) bs) (counted_once run n)
    ∙ count_runs-runs_behind bs n (suc (suc (suc (suc run))))

module _ {ℓ} {F : Type ℓ} ⦃f : Float64 F⦄ where
  -- From a state that agrees with another in its counters.
  count_slow-counts :
      (slow : Bool) (st seen : Copy F)
      → (seen.slow_n ≡ st.slow_n) × (seen.slow_run ≡ st.slow_run)
      → ((count_slow slow seen).slow_n
          ≡ (if slow && suc st.slow_run == 3 then suc st.slow_n else st.slow_n))
        × ((count_slow slow seen).slow_run ≡ (if slow then suc st.slow_run else 0))
  count_slow-counts true st seen (same_n, same_run) = (rw (same_n, same_run), rw same_run)
  count_slow-counts false st seen (same_n, same_run) = (same_n, refl)

  seen-counts :
      (paced : Bool) (dt d_media speed out_time : F) (st : Copy F)
      → let seen =
          add_window paced dt d_media (record (keep_min speed st) { last_out = out_time }) in
        (seen.slow_n ≡ st.slow_n) × (seen.slow_run ≡ st.slow_run)
  seen-counts paced dt d_media speed out_time st = ground arith

  on_sample-counts :
      (paced : Bool) (st : Copy F) (s : Sample F) (now : ℕ)
      → ((on_sample paced st s now).slow_n
          ≡ (if is_slow paced s.speed && suc st.slow_run == 3 then suc st.slow_n else st.slow_n))
        × ((on_sample paced st s now).slow_run
            ≡ (if is_slow paced s.speed then suc st.slow_run else 0))
  unfolding on_sample
  on_sample-counts paced st s now = count_slow-counts (is_slow paced s.speed) st _ (
      seen-counts paced (seconds (sub_ℕ now st.prev_wall)) (f.sub s.out_time st.prev_out) s.speed
        s.out_time st)

  unfoldable slowness : Bool → List (Sample F) → List Bool
  slowness paced ss = map (λ s. is_slow paced s.speed) ss

  on_samples-count_runs :
      (paced : Bool) (clock : ℕ → ℕ) (k : ℕ) (st : Copy F) (ss : List (Sample F))
      → (on_samples paced clock k st ss).slow_n
        ≡ count_runs st.slow_n st.slow_run (slowness paced ss)
  unfolding on_samples slowness
  on_samples-count_runs paced clock k st [] = refl
  on_samples-count_runs paced clock k st (s ∷ ss) =
      let (n, run) = on_sample-counts paced st s (clock k) in
      on_samples-count_runs paced clock (suc k) (on_sample paced st s (clock k)) ss ∙ rw (n, run)

  -- The stalls that the copy counts are the runs of at least three samples in a row whose speed is
  -- below 0.90 and not 0, each once however long it is, whatever the clock reads; without `-re`
  -- it counts none.
  pub on_samples-long_runs :
      (paced : Bool) (clock : ℕ → ℕ) (start : ℕ) (ss : List (Sample F))
      → (on_samples paced clock 0 (first_copy start) ss).slow_n
        ≡ long_runs false (map (λ s. is_slow paced s.speed) ss)
  unfolding slowness first_copy
  on_samples-long_runs paced clock start ss =
      on_samples-count_runs paced clock 0 (first_copy start) ss
      ∙ count_runs-runs_behind (slowness paced ss) 0 0
      ∙ zero_left _
