-- ===== src/Gate/Breaker/Opening.antt =====
-- gate.go: when the circuit breaker opens, and the invariant of its failure count.
use fluxor_db.Base.{ℕ, ◌+◌, ◌≡◌, List, [], ◌∷◌, none, some, arith}
use fluxor_db.Base.Int.{ℤ, pos, negsuc, pos_part, ◌+ℤ◌, ◌<ℤ◌, ◌≤ℤ◌, int64, int64_up, IsInt64}
use fluxor_db.Gate.Config.{GateConfig}
use fluxor_db.Gate.Breaker.{
  CircuitBreaker, State, closed, opened, half_open, new_circuit_breaker, allow, record_success,
  record_failure,
}

-- What the count may be in each state: below the limit while the circuit is closed, zero on trial.
abbrev CountFits : State → ℤ → ℤ → Type 0
CountFits closed count limit = (pos 0 ≤ℤ count) × (count <ℤ limit)
CountFits opened count limit = Unit
CountFits half_open count limit = count ≡ pos 0

-- A usable configuration, and a count that fits the state.
pub record IsSound (cb : CircuitBreaker) : Type 0 where
  pub limit_positive : pos 0 <ℤ cb.max_failures
  pub limit_fits : IsInt64 cb.max_failures
  pub count_fits : CountFits cb.state cb.failure_count cb.max_failures

-- One more failure of a closed breaker counts exactly.
count_up : (f m : ℤ) → pos 0 ≤ℤ f → f <ℤ m → IsInt64 m → int64 (f +ℤ pos 1) ≡ pos (pos_part f + 1)
count_up (pos n) m h k fits = int64_up n (omega arith)
count_up (negsuc n) m h k fits = absurd (omega arith)

pub allow-IsSound : (now : ℕ) (cb : CircuitBreaker) → IsSound cb → IsSound (allow now cb).0
unfolding allow
allow-IsSound now cb s = ground arith

pub record_success-IsSound : (cb : CircuitBreaker) → IsSound cb → IsSound (record_success cb)
unfolding record_success
record_success-IsSound cb s = ground arith

pub record_failure-IsSound :
    (now : ℕ) (cb : CircuitBreaker) → IsSound cb → IsSound (record_failure now cb)
unfolding record_failure
record_failure-IsSound now cb s = ground (arith, count_up cb.failure_count cb.max_failures)

-- Every new breaker, with any configuration of int64 values.
pub new_circuit_breaker-IsSound-none : IsSound (new_circuit_breaker none)
unfolding new_circuit_breaker
new_circuit_breaker-IsSound-none = ground arith

pub new_circuit_breaker-IsSound :
    (c : GateConfig) → IsInt64 c.max_failures → IsSound (new_circuit_breaker (some c))
unfolding new_circuit_breaker
new_circuit_breaker-IsSound c h = ground arith

-- A history of failures, at the given times.
unfoldable pub record_failures : List ℕ → CircuitBreaker → CircuitBreaker
record_failures [] cb = cb
record_failures (now ∷ times) cb = record_failures times (record_failure now cb)
