-- ===== src/Tests/Managers.antt =====
-- The theorems on the connection manager, on a database that counts its calls.
use fluxor_db.Base.{
  ◌==◌, ℕ, suc, ◌+◌, ◌≡◌, refl, true, false, none, some, List, [], ◌∷◌, length, arith,
  if◌then◌else◌,
}
use fluxor_db.Base.Int.{pos}
use fluxor_db.Config.{sqlite, dual_query}
use fluxor_db.Errors.{message}
use fluxor_db.Manager
use fluxor_db.Manager.{AdvancedConfig, ConnectionManager, LeakDetector, TrackedConnection}
use fluxor_db.Manager.Validator
use fluxor_db.Manager.Validator.{Pool}
use fluxor_db.Manager.Later.{Later}
use fluxor_db.Manager.Defaults
use fluxor_db.Manager.Closing
use fluxor_db.Manager.Tracking
use fluxor_db.Manager.Tracking.{Call, IsTracked}
use fluxor_db.Manager.Validated
use fluxor_db.Manager.Validated.{Answered}

-- A pool on the number of calls that it was asked for; the first validation query fails.
abbrev pub pool : Pool (Unit {0}) ℕ
pool = record {
  background = tt;
  with_timeout = λ d ctx s. tt;
  open_pool = λ driver dsn s. (suc s, none);
  set_limits = λ a b c d s. s;
  ping = λ ctx s. (suc s, none);
  close_db = λ s. (suc s, none);
  conn = λ ctx s. (suc s, none);
  close_conn = λ s. suc s;
  query_one = λ ctx q s. (suc s, if s == 1 then some (message "busy") else none);
  sleep = λ d s. s;
}

abbrev config : AdvancedConfig
config = record {
  database_type = "";
  dsn = "file::memory:";
  max_open_conns = pos 0;
  max_idle_conns = pos 0;
  conn_max_lifetime = pos 0;
  conn_max_idle_time = pos 0;
  leak_detection_threshold = pos 0;
  validation_query = "";
  validation_timeout = pos 0;
  warmup_connections = pos 0;
  warmup_timeout = pos 0;
  connection_timeout = pos 0;
  enable_metrics = false;
  enable_leak_detection = true;
}

abbrev manager : ConnectionManager
manager = Manager.new_connection_manager config

unset_defaults_example :
    (Manager.driver_name manager.config.database_type ≡ ("sqlite3", sqlite))
    × (manager.config.validation_query ≡ dual_query)
    × (manager.config.validation_timeout ≡ pos 5000000000)
    × (manager.validator.validation_query ≡ "")
    × (manager.validator.timeout ≡ pos 0)
unset_defaults_example = Defaults.unset_defaults config refl refl refl

abbrev detector : LeakDetector
detector = record {
  max_connection_age = pos 5;
  check_interval = pos 30;
  stop_closed = false;
  leak_callback = none;
  loops = 1;
}

abbrev entry : TrackedConnection
entry = record { id = 1; acquired_at = 2; last_used_at = 2; query_count = 0 }

-- An open manager that tracks one connection.
abbrev running : ConnectionManager
running = record {
  opened = true;
  config = config;
  active_connections = entry ∷ [];
  connection_id = 1;
  leak_detector = some detector;
  validator = record {
    validation_query = "SELECT 1";
    timeout = pos 9;
    max_retries = 3;
    retry_backoff = pos 4;
  };
  warmup_done = false;
  warmups = 0;
}

abbrev shut : ConnectionManager
shut = record running {
  opened = false;
  active_connections = [];
  leak_detector = some (record detector { stop_closed = true });
}

closed : Manager.close_db pool running 4 ≡ some (shut, 5, none)
unfolding Manager.close_db Manager.close_pool
closed = refl

-- Close, Open, and Close again.
close_again_example : Manager.close_db pool (Manager.open_db pool shut 5).0 9 ≡ none
close_again_example =
    Closing.close_again pool running (Manager.open_db pool shut 5).0 detector 4 9 (shut, 5, none)
      refl closed (Later.opening Later.unchanged 5)

abbrev new_detector : LeakDetector
new_detector = record {
  max_connection_age = pos 0;
  check_interval = pos 30000000000;
  stop_closed = false;
  leak_callback = none;
  loops = 1;
}

abbrev opened : ConnectionManager
opened = (Manager.open_db pool manager 1).0

-- A manager that was opened and has given out a connection.
abbrev used : ConnectionManager
used = (Manager.acquire_connection pool 3 tt opened 6).0

used_tracks : used.leak_detector ≡ some new_detector
unfolding Manager.open_db Manager.new_connection_manager Manager.acquire_connection
    Validator.validate Manager.track_connection Manager.start_detector
used_tracks = refl

one_tracked : length used.active_connections ≡ 1
unfolding Manager.open_db Manager.new_connection_manager Manager.acquire_connection
    Validator.validate Manager.track_connection
one_tracked = refl

abbrev calls : List (Call pool)
calls = Call.acquire 20 tt ∷ Call.release ∷ Call.acquire 30 tt ∷ []

tracked-run_example :
    let cm = (Tracking.run pool calls running 0).0 in
    IsTracked cm
    × (length cm.active_connections
        ≡ length running.active_connections + Tracking.given pool calls running 0)
tracked-run_example = Tracking.tracked-run pool calls running 0 refl (omega arith) (omega arith)

-- Both calls of AcquireConnection gave a connection, and three are tracked.
given_two : Tracking.given pool calls running 0 ≡ 2
unfolding Tracking.given Manager.acquire_connection Manager.release_connection Validator.validate
    Manager.track_connection
given_two = refl

acquired : (Manager.acquire_connection pool 20 tt running 0).2 ≡ none
unfolding Manager.acquire_connection Validator.validate
acquired = refl

acquire-Answered_example :
    Answered pool running.validator (Manager.acquire_connection pool 20 tt running 0).1
acquire-Answered_example = Validated.acquire-Answered pool 20 tt running 0 acquired
