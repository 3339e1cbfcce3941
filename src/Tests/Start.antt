-- ===== src/Tests/Start.antt =====
-- startHealth in one order of its steps: a request, the call of the closure, a late tick, the end.
use nixos_fleet.Base.{◌+◌, ◌≤◌, List, [], ◌∷◌, ◌≡◌, ◌⊎◌, refl, Bytes, ascii, true}
use nixos_fleet.Base.Float.{Micros, micros_float}
use nixos_fleet.Health.{HealthSummary, answered, Hit, no_summary, hit, average, poll_health}
use nixos_fleet.Health.Start.{
  finished, polling, stopping, joining, returned, Shared, launched, start_health, move, first_hit,
  tick, done, worker_lock, store, worker_unlock, finish, call, stop, join, lock, read, unlock,
  Reach, here, next,
}
use nixos_fleet.Health.Start.Joined.{wait-polled}
use nixos_fleet.Health.Start.Ends.{Goes, Trace, Trace-Reach, stay, step, wait-returns}
use nixos_fleet.Text.Cut.{equal}

abbrev place : Bytes
place = ascii "http://j/health"

abbrev early : Hit
early = record { start = 0; reply = answered 200 (ascii "200 OK") 3_000_000 }

abbrev late : Hit
late = record { start = 7; reply = answered 503 (ascii "503 Busy") 1_000_000 }

-- The summary behind each of the two.
abbrev one_polled : HealthSummary Micros
one_polled = hit (no_summary place) early

abbrev both_polled : HealthSummary Micros
both_polled = hit one_polled late

-- The goroutine has made a request, and the closure has been called.
abbrev polled_once : Shared Micros
polled_once = record launched { worker = polling one_polled; waiter = stopping }

polled_once-Reach : Reach place (early ∷ []) polled_once
unfolding start_health equal launched
polled_once-Reach =
    next (next (here refl) (move (first_hit early refl refl refl)) refl) (call refl refl refl) refl

abbrev stopped : Shared Micros
stopped = record launched { worker = polling both_polled; waiter = joining; cancelled = true }

abbrev answer : HealthSummary Micros
answer = average both_polled

abbrev ended : Shared Micros
ended = record launched {
  sum = answer;
  worker = finished;
  waiter = returned answer;
  cancelled = true;
  pending = 0;
}

stopped-Trace : Trace place (early ∷ []) polled_once 2 (early ∷ late ∷ []) stopped
unfolding launched
stopped-Trace =
    step (step stay (move (stop refl refl refl)) refl) (move (tick one_polled late refl refl refl))
      refl

ended-Trace : Trace place (early ∷ []) polled_once 11 (early ∷ late ∷ []) ended
unfolding launched
ended-Trace =
    step
      (step
        (step
          (step
            (step
              (step
                (step
                  (step (step stopped-Trace (move (done both_polled refl refl refl refl)) refl)
                    (move (worker_lock answer refl refl refl refl)) refl)
                  (move (store answer refl refl refl)) refl)
                (move (worker_unlock refl refl refl)) refl)
              (move (finish refl refl refl)) refl)
            (move (join refl refl refl refl)) refl)
          (move (lock refl refl refl refl)) refl)
        (move (read refl refl refl)) refl)
      (move (unlock answer refl refl refl)) refl

ended-Reach : Reach place (early ∷ late ∷ []) ended
ended-Reach = Trace-Reach place polled_once-Reach ended-Trace

wait-polled_example :
    (first : Hit) × (ticks : List Hit) × (early ∷ late ∷ [] ≡ first ∷ ticks)
    × (answer ≡ poll_health place first ticks)
wait-polled_example = wait-polled place ended-Reach refl

wait-returns_example :
    (2 + 1 ≤ 12 + 2)
    × (Goes place stopped ⊎ (r : HealthSummary Micros) × (stopped.waiter ≡ returned r))
wait-returns_example = wait-returns place early polled_once-Reach refl stopped-Trace
