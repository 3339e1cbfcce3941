-- ===== src/Tests/Health.antt =====
-- health.go at small inputs.
use nixos_fleet.Base.{◌+◌, List, [], ◌∷◌, ◌≡◌, ◌≢◌, refl, map, length, Bytes, ascii}
use nixos_fleet.Base.Float.{Micros, micros_float, of_uint, millis}
use nixos_fleet.Health.{
  HealthSummary, failed, answered, Hit, sample_of, poll_health, total_millis, hits, hit,
  count_reply, is_healthy, average,
}
use nixos_fleet.Health.Counts.{count_good, last_complaint, poll_health-counts}
use nixos_fleet.Text.Cut.{equal}

abbrev url : Bytes
url = ascii "http://j/health"

url-ne-nil : url ≢ []
url-ne-nil e = cc

abbrev first_hit : Hit
first_hit = record { start = 0; reply = answered 200 (ascii "200 OK") 3_000_000 }

abbrev later_hits : List Hit
later_hits =
    record { start = 5; reply = answered 503 (ascii "503 Busy") 9_000_000 }
    ∷ record { start = 9; reply = failed (ascii "timeout") 1_000_000 }
    ∷ record { start = 12; reply = answered 302 (ascii "302 Found") 2_000_000 }
    ∷ []

poll_health-counts_example :
    let r : HealthSummary Micros = poll_health url first_hit later_hits in
    let all = first_hit ∷ later_hits in
    (r.good ≡ count_good all)
    × (r.good + r.fail ≡ length all)
    × (r.last_error ≡ last_complaint [] all)
    × (r.samples ≡ map sample_of all)
    × (r.avg_millis
        ≡ micros_float.div (total_millis (of_uint 0) (map sample_of all)) (of_uint (length all)))
poll_health-counts_example = poll_health-counts url first_hit later_hits url-ne-nil

-- The largest time of a request is kept.
poll_health-max : (poll_health {F = Micros} url first_hit later_hits).max_millis ≡ of_uint 9
unfolding poll_health hits hit count_reply is_healthy average millis equal total_millis sample_of
poll_health-max = refl
