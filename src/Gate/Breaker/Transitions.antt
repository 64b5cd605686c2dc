-- ===== src/Gate/Breaker/Transitions.antt =====
-- gate.go: the state diagram of the circuit breaker.
use fluxor_db.Base.{ℕ, ◌≡◌, ◌↔◌, List, [], ◌∷◌, some, arith}
use fluxor_db.Base.Int.{◌≤ℤ◌, sub_ℕ}
use fluxor_db.Errors.{circuit_open}
use fluxor_db.Gate.Breaker.Opening.{
  IsSound, allow-IsSound, record_success-IsSound, record_failure-IsSound,
}
use fluxor_db.Gate.Breaker.{
  CircuitBreaker, State, closed, opened, half_open, allow, record_success, record_failure,
}

-- The edges of the diagram.
pub data Edge : State → State → Type 0 where
  trip : Edge closed opened
  probe : Edge opened half_open
  recover : Edge half_open closed
  relapse : Edge half_open opened

-- What a client calls, with the times that it meets.
pub data Call : Type 0 where
  allows : ℕ → Call
  succeeds : Call
  fails : ℕ → Call

unfoldable pub step : CircuitBreaker → Call → CircuitBreaker
step cb (allows now) = (allow now cb).0
step cb succeeds = record_success cb
step cb (fails now) = record_failure now cb

unfoldable pub run : List Call → CircuitBreaker → CircuitBreaker
run [] cb = cb
run (c ∷ cs) cb = run cs (step cb c)

step-IsSound : (cb : CircuitBreaker) (c : Call) → IsSound cb → IsSound (step cb c)
unfolding step
step-IsSound cb (allows now) s = allow-IsSound now cb s
step-IsSound cb succeeds s = record_success-IsSound cb s
step-IsSound cb (fails now) s = record_failure-IsSound now cb s

-- From a breaker with a positive int64 limit whose count fits its state, after any calls the count
-- of a closed circuit is below the limit and that of a half-open one is zero.
pub run-IsSound : (cs : List Call) (cb : CircuitBreaker) → IsSound cb → IsSound (run cs cb)
unfolding run
run-IsSound [] cb s = s
run-IsSound (c ∷ cs) cb s = run-IsSound cs (step cb c) (step-IsSound cb c s)

-- Allow refuses with ErrCircuitOpen exactly when the circuit is open and the time since the last
-- failure is not above the reset time.
pub allow_refuses :
    (now : ℕ) (cb : CircuitBreaker)
    → ((allow now cb).1 ≡ some circuit_open)
      ↔ ((cb.state ≡ opened) × (sub_ℕ now cb.last_failure_time ≤ℤ cb.reset_timeout))
unfolding allow
allow_refuses now cb = (λ h. ground arith, λ h. ground arith)
