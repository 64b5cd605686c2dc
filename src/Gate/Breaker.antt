-- ===== src/Gate/Breaker.antt =====
-- gate.go, CircuitBreaker. A method takes the time that it reads (nanoseconds) and returns the new
-- breaker beside its result. `notified` holds what the callback onStateChange was called with, the
-- latest call first, if one is set.
pub mod Opening
pub mod Transitions
use fluxor_db.Base.{
  ℕ, String, Bool, true, false, Option, none, some, List, [], ◌∷◌, ◌&&◌, if◌then◌else◌,
}
use fluxor_db.Base.Int.{ℤ, pos, sub_ℕ, ltb_ℤ, leb_ℤ, is_pos, int64, ◌+ℤ◌}
use fluxor_db.Errors.{Err, circuit_open}
use fluxor_db.Gate.Config.{GateConfig}

pub data State : Type 0 where
  closed opened half_open : State

pub record CircuitBreaker : Type 0 where
  pub max_failures : ℤ
  pub reset_timeout : ℤ
  pub half_open_timeout : ℤ
  pub failure_count : ℤ
  pub last_failure_time : ℕ
  pub state : State
  pub has_callback : Bool
  pub notified : List (State × State)

abbrev override : ℤ → ℤ → ℤ
override value default = if is_pos value then value else default

abbrev pub second : ℕ
second = 1000000000

defaults : CircuitBreaker
defaults = record {
  max_failures = pos 5;
  reset_timeout = pos 60000000000;
  half_open_timeout = pos 10000000000;
  failure_count = pos 0;
  last_failure_time = 0;
  state = closed;
  has_callback = false;
  notified = [];
}

unfoldable pub new_circuit_breaker : Option GateConfig → CircuitBreaker
unfolding defaults
new_circuit_breaker none = defaults
new_circuit_breaker (some c) = record defaults {
  max_failures = override c.max_failures (pos 5);
  reset_timeout = override c.reset_timeout (pos 60000000000);
  half_open_timeout = override c.half_open_timeout (pos 10000000000);
}

-- `if cb.onStateChange != nil { cb.onStateChange(from, to) }`
abbrev notify : State → State → CircuitBreaker → CircuitBreaker
notify from to cb =
    if cb.has_callback then record cb { notified = (from, to) ∷ cb.notified } else cb

-- The part of Allow under the lock.
unfoldable pub allow_locked : ℕ → CircuitBreaker → CircuitBreaker × Option Err
allow_locked now cb =
    if ltb_ℤ cb.reset_timeout (sub_ℕ now cb.last_failure_time)
    then (notify opened half_open (record cb { state = half_open; failure_count = pos 0 }), none)
    else (cb, some circuit_open)

-- Allow after it has read the state.
unfoldable pub allow_after_load : State → ℕ → CircuitBreaker → CircuitBreaker × Option Err
unfolding allow_locked
allow_after_load opened now cb = allow_locked now cb
allow_after_load half_open now cb = (cb, none)
allow_after_load closed now cb = (cb, none)

unfoldable pub allow : ℕ → CircuitBreaker → CircuitBreaker × Option Err
unfolding allow_after_load
allow now cb = allow_after_load cb.state now cb

-- RecordSuccess after it has read the state.
unfoldable pub success_after_load : State → CircuitBreaker → CircuitBreaker
success_after_load half_open cb =
    notify half_open closed (record cb { state = closed; failure_count = pos 0 })
success_after_load closed cb = record cb { failure_count = pos 0 }
success_after_load opened cb = cb

unfoldable pub record_success : CircuitBreaker → CircuitBreaker
unfolding success_after_load
record_success cb = success_after_load cb.state cb

fail_in : State → CircuitBreaker → CircuitBreaker
fail_in half_open cb = notify half_open opened (record cb { state = opened })
fail_in closed cb =
    if leb_ℤ cb.max_failures cb.failure_count
    then notify closed opened (record cb { state = opened })
    else cb
fail_in opened cb = cb

unfoldable pub record_failure : ℕ → CircuitBreaker → CircuitBreaker
unfolding fail_in
record_failure now cb =
    fail_in cb.state
      (record cb { failure_count = int64 (cb.failure_count +ℤ pos 1); last_failure_time = now })

-- State: the text of the state.
unfoldable pub state_text : CircuitBreaker → String
state_text cb = elim cb.state [ closed ↦ "closed" | opened ↦ "open" | half_open ↦ "half-open" ]
