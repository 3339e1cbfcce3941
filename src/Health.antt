-- ===== src/Health.antt =====
-- scripts/jellyfin-io-bench/health.go: `pollHealth`, over the outcomes of its requests.
pub mod Counts
pub mod Start
use nixos_fleet.Base.{
  ℕ, ◌+◌, ltb, leb, Bool, true, false, ◌&&◌, List, [], ◌∷◌, ◌++◌, if◌then◌else◌, Bytes,
}
use nixos_fleet.Base.Float.{Float64, of_uint, millis}
use nixos_fleet.Text.Cut.{equal}

pub record HealthSample {ℓ} (F : Type ℓ) : Type ℓ where
  pub at : ℕ
  pub status : ℕ
  pub millis_taken : F
  pub error : Bytes

pub record HealthSummary {ℓ} (F : Type ℓ) : Type ℓ where
  pub url : Bytes
  pub good : ℕ
  pub fail : ℕ
  pub avg_millis : F
  pub max_millis : F
  pub last_error : Bytes
  pub samples : List (HealthSample F)

-- How a request went, with the time that it took.
pub data Reply : Type 0 where
  bad_request failed : Bytes → ℕ → Reply
  answered : (code : ℕ) → (status : Bytes) → ℕ → Reply

-- A request and when it began.
pub record Hit : Type 0 where
  pub start : ℕ
  pub reply : Reply

unfoldable pub is_healthy : ℕ → Bool
is_healthy code = leb 200 code && ltb code 400

module _ {ℓ} {F : Type ℓ} ⦃f : Float64 F⦄ where
  abbrev pub no_summary : Bytes → HealthSummary F
  no_summary url = record {
    url = url;
    good = 0;
    fail = 0;
    avg_millis = of_uint 0;
    max_millis = of_uint 0;
    last_error = [];
    samples = [];
  }

  unfoldable pub sample_of : Hit → HealthSample F
  sample_of h = elim h.reply [
    | bad_request e t ↦ record { at = h.start; status = 0; millis_taken = millis t; error = e }
    | failed e t ↦ record { at = h.start; status = 0; millis_taken = millis t; error = e }
    | answered code status t ↦ record {
      at = h.start;
      status = code;
      millis_taken = millis t;
      error = [];
    }
  ]

  abbrev pub raise_max : HealthSummary F → F → HealthSummary F
  raise_max sum m = if f.lt sum.max_millis m then record sum { max_millis = m } else sum

  abbrev pub count_fail : HealthSummary F → Bytes → HealthSummary F
  count_fail sum e = record sum { fail = sum.fail + 1; last_error = e }

  unfoldable pub count_reply : HealthSummary F → Reply → HealthSummary F
  count_reply sum (bad_request e t) = count_fail sum e
  count_reply sum (failed e t) = count_fail (raise_max sum (millis t)) e
  count_reply sum (answered code status t) =
      let raised = raise_max sum (millis t) in
      if is_healthy code then record raised { good = raised.good + 1 } else count_fail raised status

  abbrev pub append_sample : HealthSummary F → HealthSample F → HealthSummary F
  append_sample sum s = record sum { samples = sum.samples ++ s ∷ [] }

  -- The closure `hit`.
  unfoldable pub hit : HealthSummary F → Hit → HealthSummary F
  hit sum h = append_sample (count_reply sum h.reply) (sample_of h)

  unfoldable pub hits : HealthSummary F → List Hit → HealthSummary F
  hits sum [] = sum
  hits sum (h ∷ hs) = hits (hit sum h) hs

  unfoldable pub total_millis : F → List (HealthSample F) → F
  total_millis total [] = total
  total_millis total (s ∷ ss) = total_millis (f.add total s.millis_taken) ss

  -- The first request is made at once and the others on ticks, until the context is done. There is
  -- at least one request then, so the division is always made.
  unfoldable pub average : HealthSummary F → HealthSummary F
  average sum =
      let n = sum.good + sum.fail in
      if ltb 0 n
      then record sum { avg_millis = f.div (total_millis (of_uint 0) sum.samples) (of_uint n) }
      else sum

  unfoldable pub poll_health : Bytes → Hit → List Hit → HealthSummary F
  poll_health url first ticks =
      if equal url [] then no_summary url else average (hits (no_summary url) (first ∷ ticks))
