-- ===== src/Health/Counts.antt =====
-- What the summary of `pollHealth` counts.
use mathlib.Core.List.{append_assoc, append-nil}
use nixos_fleet.Base.{
  ℕ, suc, ◌+◌, Bool, false, List, [], ◌∷◌, ◌++◌, ◌≡◌, ◌≢◌, ◌∙◌, refl, ap, map, if◌then◌else◌,
  length, lt→ltb, ◌<◌, arith, Bytes, Bool-cases, inl, inr,
}
use nixos_fleet.Base.Float.{Float64, of_uint}
use nixos_fleet.Health.{
  HealthSample, HealthSummary, Reply, bad_request, failed, answered, Hit, is_healthy, no_summary,
  sample_of, count_reply, hit, hits, average, total_millis, poll_health,
}
use nixos_fleet.Text.Cut.{equal, equal_iff}

-- An answer with a status from 200 to 399.
abbrev pub is_good : Reply → Bool
is_good (answered code status t) = is_healthy code
is_good _ = false

abbrev pub count_good : List Hit → ℕ
count_good [] = 0
count_good (h ∷ hs) = (if is_good h.reply then 1 else 0) + count_good hs

-- The text that a request that is not good leaves.
abbrev pub complaint : Reply → Bytes
complaint (bad_request e t) = e
complaint (failed e t) = e
complaint (answered code status t) = status

-- The complaint of the last request that was not good, and `seen` where all were.
abbrev pub last_complaint : Bytes → List Hit → Bytes
last_complaint seen [] = seen
last_complaint seen (h ∷ hs) =
    last_complaint (if is_good h.reply then seen else complaint h.reply) hs

module _ {ℓ} {F : Type ℓ} ⦃f : Float64 F⦄ where
  -- What the counts of `r` are by those of `sum` and the requests between them.
  abbrev Counts : HealthSummary F → List Hit → HealthSummary F → Type ℓ
  Counts sum hs r =
      (r.good ≡ count_good hs + sum.good)
      × (r.good + r.fail ≡ length hs + (sum.good + sum.fail))
      × (r.last_error ≡ last_complaint sum.last_error hs)
      × (r.samples ≡ sum.samples ++ map sample_of hs)

  count_reply-parts :
      (sum : HealthSummary F) (reply : Reply)
      → let r = count_reply sum reply in
        (r.good ≡ (if is_good reply then 1 else 0) + sum.good)
        × (r.good + r.fail ≡ suc (sum.good + sum.fail))
        × (r.last_error ≡ (if is_good reply then sum.last_error else complaint reply))
        × (r.samples ≡ sum.samples)
  unfolding count_reply
  count_reply-parts sum (bad_request e t) = ground arith
  count_reply-parts sum (failed e t) = ground arith
  count_reply-parts sum (answered code status t) = ground arith

  hits-Counts : (sum : HealthSummary F) (hs : List Hit) → Counts sum hs (hits sum hs)
  unfolding hits hit
  hits-Counts sum [] = (omega arith, omega arith, refl, rw append-nil)
  hits-Counts sum (h ∷ hs) =
      let (good, both, last, kept) = count_reply-parts sum h.reply in
      let (good', both', last', kept') = hits-Counts (hit sum h) hs in
      (
        omega arith,
        omega arith,
        last' ∙ ap (λ (e : Bytes). last_complaint e hs) last,
        kept'
            ∙ ap (λ (l : List (HealthSample F)). (l ++ sample_of h ∷ []) ++ map sample_of hs) kept
            ∙ append_assoc sum.samples (sample_of h ∷ []) (map sample_of hs),
      )

  average_lem :
      (sum : HealthSummary F)
      → 0 < sum.good + sum.fail
      → average sum ≡ record sum {
        avg_millis = f.div (total_millis (of_uint 0) sum.samples) (of_uint (sum.good + sum.fail));
      }
  unfolding average
  average_lem sum h = rw (lt→ltb 0 (sum.good + sum.fail) h)

  pub poll_health-average :
      (url : Bytes) (first : Hit) (ticks : List Hit)
      → url ≢ []
      → poll_health {F = F} url first ticks ≡ average (hits (no_summary url) (first ∷ ticks))
  unfolding poll_health
  poll_health-average url first ticks h = elim (Bool-cases (equal url [])) [
    | inl empty ↦ absurd (h ((equal_iff url []).0 empty))
    | inr other ↦ rw other
  ]

  -- For a URL that is not empty each request is counted once, as good where it was answered with a
  -- status from 200 to 399 and as failed otherwise; there is a sample for each, in order; the last
  -- error is the text of the last that was not good, and empty where all were; and the average is
  -- the sum of the samples' times over the number of requests.
  pub poll_health-counts :
      (url : Bytes) (first : Hit) (ticks : List Hit)
      → url ≢ []
      → let r : HealthSummary F = poll_health url first ticks in
        let all = first ∷ ticks in
        (r.good ≡ count_good all)
        × (r.good + r.fail ≡ length all)
        × (r.last_error ≡ last_complaint [] all)
        × (r.samples ≡ map sample_of all)
        × (r.avg_millis
            ≡ f.div (total_millis (of_uint 0) (map sample_of all)) (of_uint (length all)))
  poll_health-counts url first ticks h =
      let sum : HealthSummary F = hits (no_summary url) (first ∷ ticks) in
      let (good, both, last, kept) = hits-Counts (no_summary url) (first ∷ ticks) in
      let number : sum.good + sum.fail ≡ length (first ∷ ticks) = omega arith in
      rw (poll_health-average url first ticks h, average_lem sum (omega arith))
        (omega arith, number, last, kept, rw (kept, number))
