-- ===== src/Gate/Limiter.antt =====
-- gate.go, ConnectionLimiter. The channel `sem` is the number of values in its buffer, whose
-- capacity is `max_connections`; a nil channel is `none`.
--
-- AcquireWithContext has two parts: up to the point where it blocks, and after the event that the
-- blocking select meets. In each a value goes into the channel first (`attempt_now`,
-- `attempt_wake`), and the count goes up in a step of its own (`count_up`). So does Release: `drain`
-- comes before `count_down`. No lock holds such a pair together, and Bounds lets other goroutines
-- come between. `acquire_now`, `acquire_wake` and `release` are the pairs of one goroutine, one step
-- after the other. Acquire looks and counts under its mutex; only Release can come between, and it
-- lowers the count.
pub mod Bounds
use fluxor_db.Base.{
  ℕ, zero, suc, ◌+◌, ◌-◌, ◌≡◌, String, Bool, true, false, Option, none, some, ◌||◌, str_eq, ltb,
  if◌then◌else◌,
}
use fluxor_db.Base.Int.{ℤ, pos, pos_part, is_pos, leb_ℤ, int64, ◌+ℤ◌, ◌-ℤ◌}
use fluxor_db.Errors.{Err, connection_limit}
use fluxor_db.Gate.Config.{GateConfig}

pub record ConnectionLimiter : Type 0 where
  pub current_connections : ℤ
  pub max_connections : ℤ
  pub mode : String
  pub timeout : ℤ
  pub sem : Option ℕ

limiter_max : ℤ → ℤ
limiter_max m = if is_pos m then m else pos 100

unfoldable pub new_connection_limiter : Option GateConfig → ConnectionLimiter
unfolding limiter_max
new_connection_limiter none = record {
  current_connections = pos 0;
  max_connections = pos 100;
  mode = "";
  timeout = pos 0;
  sem = none;
}
new_connection_limiter (some c) = record {
  current_connections = pos 0;
  max_connections = limiter_max c.max_concurrent_connections;
  mode = c.backpressure_mode;
  timeout = c.backpressure_timeout;
  sem =
      if str_eq c.backpressure_mode "block" || str_eq c.backpressure_mode "timeout"
      then some 0
      else none;
}

unfoldable pub acquire : ConnectionLimiter → ConnectionLimiter × Option Err
acquire cl =
    if leb_ℤ cl.max_connections cl.current_connections
    then (cl, some connection_limit)
    else (record cl { current_connections = int64 (cl.current_connections +ℤ pos 1) }, none)

-- The event that ends a blocking select: a free place in the channel, the timer, the context.
pub data Wake : Type 0 where
  slot timer : Wake
  done : Err → Wake

-- What AcquireWithContext has come to.
pub data Progress : Type 0 where
  finished : ConnectionLimiter → Option Err → Progress
  blocked : Progress

-- What a channel operation of AcquireWithContext has come to: an answer, or a value in the channel,
-- after which the count goes up, or nothing yet.
pub data Attempt : Type 0 where
  decided : ConnectionLimiter → Option Err → Attempt
  entered : ConnectionLimiter → Attempt
  waiting : Attempt

-- A value goes into the channel that holds `n` values.
put : ℕ → ConnectionLimiter → ConnectionLimiter
put n cl = record cl { sem = some (n + 1) }

-- atomic.AddInt64(&cl.currentConnections, 1)
unfoldable pub count_up : ConnectionLimiter → ConnectionLimiter
count_up cl = record cl { current_connections = int64 (cl.current_connections +ℤ pos 1) }

-- The channel is full: the switch on the mode, up to the select.
unfoldable pub backpressure : ConnectionLimiter → Attempt
backpressure cl =
    if str_eq cl.mode "block"
    then waiting
    else if str_eq cl.mode "timeout"
    then if is_pos cl.timeout then waiting else decided cl (some connection_limit)
    else decided cl (some connection_limit)

now_with : Option ℕ → ConnectionLimiter → Attempt
unfolding put backpressure acquire
now_with none cl = let (cl', e) = acquire cl in decided cl' e
now_with (some n) cl =
    if ltb n (pos_part cl.max_connections) then entered (put n cl) else backpressure cl

unfoldable pub attempt_now : ConnectionLimiter → Attempt
unfolding now_with
attempt_now cl = now_with cl.sem cl

-- The select after `wake`. The channel is ready only if it has room, and the timer exists only in
-- mode "timeout"; a select that is not ready stays blocked.
wake_with : Wake → Option ℕ → ConnectionLimiter → Attempt
unfolding put
wake_with slot (some n) cl =
    if ltb n (pos_part cl.max_connections) then entered (put n cl) else waiting
wake_with slot none cl = waiting
wake_with timer _ cl =
    if str_eq cl.mode "timeout" then decided cl (some connection_limit) else waiting
wake_with (done e) _ cl = decided cl (some e)

unfoldable pub attempt_wake : Wake → ConnectionLimiter → Attempt
unfolding wake_with
attempt_wake w cl = wake_with w cl.sem cl

-- The count goes up after a value has gone in.
unfoldable pub counted : Attempt → Progress
unfolding count_up
counted (decided cl e) = finished cl e
counted (entered cl) = finished (count_up cl) none
counted waiting = blocked

unfoldable pub acquire_now : ConnectionLimiter → Progress
unfolding attempt_now counted
acquire_now cl = counted (attempt_now cl)

unfoldable pub acquire_wake : Wake → ConnectionLimiter → Progress
unfolding attempt_wake counted
acquire_wake w cl = counted (attempt_wake w cl)

-- AcquireWithContext: `others` is what the other goroutines do while it is blocked.
unfoldable pub acquire_with_context :
    Wake → (ConnectionLimiter → ConnectionLimiter) → ConnectionLimiter → Progress
unfolding acquire_now acquire_wake
acquire_with_context w others cl = elim (acquire_now cl) [
  | finished cl' e ↦ finished cl' e
  | blocked ↦ acquire_wake w (others cl)
]

-- `select { case <-cl.sem: default: }`
abbrev drained : Option ℕ → Option ℕ
drained (some (suc n)) = some n
drained (some zero) = some zero
drained none = none

unfoldable pub drain : ConnectionLimiter → ConnectionLimiter
drain cl = record cl { sem = drained cl.sem }

-- atomic.AddInt64(&cl.currentConnections, -1)
unfoldable pub count_down : ConnectionLimiter → ConnectionLimiter
count_down cl = record cl { current_connections = int64 (cl.current_connections -ℤ pos 1) }

unfoldable pub release : ConnectionLimiter → ConnectionLimiter
unfolding drain count_down
release cl = count_down (drain cl)
