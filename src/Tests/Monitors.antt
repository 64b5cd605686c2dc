-- ===== src/Tests/Monitors.antt =====
-- The theorems on the monitor, and small runs.
use fluxor_db.Base.{◌≡◌, refl, true, false, none, some, [], ◌∷◌}
use fluxor_db.Base.Int.{pos}
use fluxor_db.Utils.{HealthStatus}
use fluxor_db.Monitor
use fluxor_db.Monitor.{Monitor, Check, Diagnostics}
use fluxor_db.Monitor.Events
use fluxor_db.Monitor.Restart
use fluxor_db.Monitor.Restart.{Later}

abbrev health : HealthStatus
health = record {
  healthy = false;
  text = "Circuit breaker is open";
  last_check = 9;
  connection_ok = true;
  circuit_breaker_ok = false;
}

abbrev diagnostics : Diagnostics
diagnostics = record {
  connection_stats = record {
    max_open_connections = pos 0;
    open_connections = pos 0;
    in_use = pos 0;
    idle = pos 0;
    wait_count = pos 0;
    wait_duration = pos 0;
    max_idle_closed = pos 0;
    max_idle_time_closed = pos 0;
    max_lifetime_closed = pos 0;
  };
  metrics = record {
    total_queries = pos 3;
    successful_queries = pos 3;
    failed_queries = pos 0;
    average_query_time = pos 7;
    slow_queries = pos 1;
  };
  circuit_breaker = "open";
  timestamp = 4;
}

-- Two callbacks, and everything to be told.
abbrev check : Check
check = record {
  diagnostics = diagnostics;
  health = health;
  callbacks = 5 ∷ 8 ∷ [];
  now = 10;
  now_warning = 11;
  now_slow = 12;
  now_open = 13;
}

once : Events.occurrences 8 check.callbacks ≡ 1
unfolding Events.occurrences
once = refl

received-check_example : Events.received 8 (Monitor.check_and_notify check) ≡ Events.events check
received-check_example = Events.received-check 8 check once

abbrev monitor : Monitor
monitor = Monitor.start (Monitor.new_monitor (pos 60))

abbrev halted : Monitor
halted = record {
  interval = pos 60;
  stop_closed = true;
  callbacks = [];
  running = false;
  loops = 1;
}

halts : Monitor.stop monitor ≡ some halted
unfolding Monitor.stop Monitor.start Monitor.new_monitor
halts = refl

runs : monitor.running ≡ true
unfolding Monitor.start Monitor.new_monitor
runs = refl

restart_panics_example :
    let m = Monitor.add_callback 5 halted in
    ((Monitor.start m).running ≡ true) × (Monitor.stop (Monitor.start m) ≡ none)
restart_panics_example =
    Restart.restart_panics monitor halted (Monitor.add_callback 5 halted) runs halts
      (Later.adding Later.unchanged 5)
