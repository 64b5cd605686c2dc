-- ===== src/Tests/Gates.antt =====
-- Instances of the theorems about gate.go and errors.go.
use fluxor_db.Base.{List, ◌*◌, ◌/◌, ℕ, ◌+◌, ◌≤◌, ◌≡◌, refl, true, [], ◌∷◌, none, some, arith}
use fluxor_db.Base.Int.{ℤ, pos, pos_part, int64, ◌+ℤ◌}
use fluxor_db.Errors
use fluxor_db.Errors.{Err, Result, ok, err, circuit_open, connection_limit, external, canceled}
use fluxor_db.Gate
use fluxor_db.Gate.{ConnectionGate}
use fluxor_db.Gate.Slots
use fluxor_db.Gate.Config.{GateConfig}
use fluxor_db.Gate.Breaker
use fluxor_db.Gate.Breaker.{CircuitBreaker, closed, opened, half_open}
use fluxor_db.Gate.Breaker.Opening
use fluxor_db.Gate.Breaker.Transitions
use fluxor_db.Gate.Breaker.Transitions.{allows, succeeds, fails}
use fluxor_db.Gate.Rate
use fluxor_db.Gate.Rate.{RateLimiter}
use fluxor_db.Gate.Limiter
use fluxor_db.Gate.Limiter.{ConnectionLimiter, Wake, finished}
use fluxor_db.Gate.Limiter.Bounds
use fluxor_db.Gate.Limiter.Bounds.{Shared}

abbrev two_failures : CircuitBreaker
two_failures = record {
  max_failures = pos 2;
  reset_timeout = pos 60;
  half_open_timeout = pos 10;
  failure_count = pos 0;
  last_failure_time = 0;
  state = closed;
  has_callback = true;
  notified = [];
}

abbrev tripped : CircuitBreaker
tripped = record two_failures { state = opened; failure_count = pos 2; last_failure_time = 5 }

-- The callback's calls in that run, the latest first.
notified_run :
    (Transitions.run (fails 1 ∷ fails 5 ∷ allows 90 ∷ succeeds ∷ []) two_failures).notified
    ≡ (half_open, closed) ∷ (opened, half_open) ∷ (closed, opened) ∷ []
unfolding Transitions.run Transitions.step Breaker.allow Breaker.record_success
    Breaker.record_failure int64 ◌+ℤ◌
notified_run = refl

abbrev bucket : RateLimiter
bucket = record { tokens = pos 3; max_tokens = pos 10; refill_rate = pos 1; last_refill = 0 }

-- A product that never refills.
abbrev nothing_added : ℤ → ℤ → ℤ
nothing_added elapsed rate = pos 0

-- Seconds times rate, without the fractions.
abbrev whole_seconds : ℤ → ℤ → ℤ
whole_seconds elapsed rate = pos (pos_part elapsed / 1000000000 * pos_part rate)

-- A call after two seconds and one after two more.
abbrev two_calls : List ℕ
two_calls = 2000000000 ∷ 4000000000 ∷ []

run-conserves_example :
    Rate.IsFilled (Rate.run whole_seconds two_calls bucket).0
    × ((Rate.run whole_seconds two_calls bucket).1
          + pos_part (Rate.run whole_seconds two_calls bucket).0.tokens
        ≤ 3 + (Rate.run whole_seconds two_calls bucket).2)
unfolding Rate.IsSmall Rate.to_add Rate.allow int64 ◌+ℤ◌
run-conserves_example =
    Rate.run-conserves whole_seconds two_calls bucket (ground arith)
      (omega arith, (omega arith, tt))

two_granted : (Rate.run whole_seconds two_calls bucket).1 ≡ 2
unfolding Rate.run Rate.allow int64 ◌+ℤ◌ fluxor_db.Base.Int.◌-ℤ◌
two_granted = refl

abbrev blocking : GateConfig
blocking = record {
  max_failures = pos 0;
  reset_timeout = pos 0;
  half_open_timeout = pos 0;
  max_requests_per_second = pos 0;
  max_concurrent_connections = pos 1;
  backpressure_mode = "block";
  backpressure_timeout = pos 0;
}

abbrev blocker : ConnectionLimiter
blocker = record {
  current_connections = pos 1;
  max_connections = pos 1;
  mode = "block";
  timeout = pos 0;
  sem = some 1;
}

abbrev empty : ConnectionLimiter
empty = record blocker { current_connections = pos 0; sem = some 0 }

-- One goroutine has the only place, takes its value out of the channel, and before it counts down a
-- second one comes in and counts: two are counted where the limit is one.
abbrev crowded : Shared
crowded = record {
  limiter = record blocker { current_connections = pos 2 };
  entering = 0;
  leaving = 1;
}

abbrev held : Shared
held = record { limiter = blocker; entering = 0; leaving = 0 }

abbrev impatient : ConnectionLimiter
impatient = record blocker { mode = "timeout" }

abbrev dropper : ConnectionLimiter
dropper = record blocker { mode = "drop"; sem = none; current_connections = pos 0 }

abbrev gate : ConnectionGate
gate = record { breaker = two_failures; rate = bucket; limiter = dropper }

abbrev works : ℕ → ℕ × Result ℕ
works n = (n + 1, ok n)

dropper-IsDropping : Slots.IsDropping dropper
dropper-IsDropping = ground arith

execute-KeepsSlot_example :
    Slots.KeepsSlot gate (Gate.execute_with_gate nothing_added 1 2 Wake.slot (λ g. g) works gate 7)
execute-KeepsSlot_example =
    Slots.execute-KeepsSlot nothing_added 1 2 Wake.slot (λ g. g) works gate 7 dropper-IsDropping

abbrev request : Slots.Request ℕ ℕ
request = record { now = 1; later = 2; wake = Wake.slot; others = λ g. g; operation = works }

run_successes_example :
    ((Slots.run nothing_added (request ∷ request ∷ []) gate 7).0.limiter.current_connections
      ≡ pos (0 + (Slots.run nothing_added (request ∷ request ∷ []) gate 7).1))
    × (0 + (Slots.run nothing_added (request ∷ request ∷ []) gate 7).1 ≤ 1)
run_successes_example =
    Slots.run_successes nothing_added (request ∷ request ∷ []) gate 7 0 dropper-IsDropping refl

abbrev timed_out : Err
timed_out = Errors.Err.database_root "TIMEOUT" "slow"
