-- ===== src/Monitor.antt =====
-- monitor.go: Monitor, with the diagnostics of utils.go that its events carry.
--
-- A callback is known by a number. What a check does to the callbacks is the list of their calls,
-- in order. Closing a channel that is closed panics.
pub mod Events
pub mod Restart
use Prim.Native.String.{◌++◌}
use fluxor_db.Base.{
  ℕ, ◌+◌, String, Bool, true, false, not, Option, none, some, List, [], ◌∷◌, append, map, str_eq,
  if◌then◌else◌,
}
use fluxor_db.Base.Decimal.{decimal}
use fluxor_db.Base.Int.{ℤ, is_pos, pos_part}
use fluxor_db.Db.Metrics.{MetricsStats}
use fluxor_db.Tcp.Protocol.{StatsResult}
use fluxor_db.Utils.{HealthStatus}

pub record Diagnostics : Type 0 where
  pub connection_stats : StatsResult
  pub metrics : MetricsStats
  pub circuit_breaker : String
  pub timestamp : ℕ

pub record MonitorEvent : Type 0 where
  pub event_type : String
  pub timestamp : ℕ
  pub diagnostics : Option Diagnostics
  pub health : Option HealthStatus
  pub text : String

pub record Monitor : Type 0 where
  pub interval : ℤ
  pub stop_closed : Bool
  pub callbacks : List ℕ
  pub running : Bool
  pub loops : ℕ  -- the goroutines of monitorLoop that have been started

unfoldable pub new_monitor : ℤ → Monitor
new_monitor interval = record {
  interval = interval;
  stop_closed = false;
  callbacks = [];
  running = false;
  loops = 0;
}

unfoldable pub add_callback : ℕ → Monitor → Monitor
add_callback callback m = record m { callbacks = append m.callbacks (callback ∷ []) }

unfoldable pub start : Monitor → Monitor
start m = if m.running then m else record m { running = true; loops = m.loops + 1 }

-- `none` is the panic of close.
unfoldable pub stop : Monitor → Option Monitor
stop m =
    if not m.running
    then some m
    else if m.stop_closed
    then none
    else some (record m { stop_closed = true; running = false })

-- What one tick reads: the diagnostics, the health, the callbacks, and the clock of each event.
pub record Check : Type 0 where
  pub diagnostics : Diagnostics
  pub health : HealthStatus
  pub callbacks : List ℕ
  pub now : ℕ
  pub now_warning : ℕ
  pub now_slow : ℕ
  pub now_open : ℕ

unfoldable pub periodic_event : Check → MonitorEvent
periodic_event c = record {
  event_type = "periodic_check";
  timestamp = c.now;
  diagnostics = some c.diagnostics;
  health = some c.health;
  text = "";
}

unfoldable pub warning_event : Check → MonitorEvent
warning_event c = record {
  event_type = "health_warning";
  timestamp = c.now_warning;
  diagnostics = some c.diagnostics;
  health = some c.health;
  text = c.health.text;
}

unfoldable pub slow_query_event : Check → MonitorEvent
slow_query_event c = record {
  event_type = "slow_queries";
  timestamp = c.now_slow;
  diagnostics = some c.diagnostics;
  health = none;
  text = "Detected " ++ (decimal (pos_part c.diagnostics.metrics.slow_queries) ++ " slow queries");
}

unfoldable pub breaker_event : Check → MonitorEvent
breaker_event c = record {
  event_type = "circuit_breaker_open";
  timestamp = c.now_open;
  diagnostics = some c.diagnostics;
  health = none;
  text = "Circuit breaker is open";
}

-- A loop `for _, callback := range callbacks { callback(event) }`
unfoldable pub notify : List ℕ → MonitorEvent → List (ℕ × MonitorEvent)
notify [] e = []
notify (callback ∷ callbacks) e = (callback, e) ∷ notify callbacks e

unfoldable pub notify_if : Bool → List ℕ → MonitorEvent → List (ℕ × MonitorEvent)
unfolding notify
notify_if test callbacks e = if test then notify callbacks e else []

unfoldable pub check_and_notify : Check → List (ℕ × MonitorEvent)
unfolding notify_if
check_and_notify c = append (notify c.callbacks (periodic_event c)) (
    append (notify_if (not c.health.healthy) c.callbacks (warning_event c)) (
      append
        (notify_if (is_pos c.diagnostics.metrics.slow_queries) c.callbacks (slow_query_event c))
        (notify_if (str_eq c.diagnostics.circuit_breaker "open") c.callbacks (breaker_event c))))

-- What a select of monitorLoop finds ready.
pub data Signal : Type 0 where
  tick : Check → Signal
  stopped done : Signal

unfoldable pub monitor_loop : List Signal → List (ℕ × MonitorEvent)
monitor_loop [] = []
monitor_loop (tick c ∷ signals) = append (check_and_notify c) (monitor_loop signals)
monitor_loop (stopped ∷ signals) = []
monitor_loop (done ∷ signals) = []
