-- ===== src/Runtime/Lifecycle.antt =====
-- dbruntime.go: NewDBRuntime, Connect, Disconnect, and the calls that they guard.
--
-- The gate is one object that the runtime and its AdvancedDB share: `with_db` puts a changed gate
-- into both.
use fluxor_db.Base.{false, ℕ, String, Bool, Option, none, some, if◌then◌else◌}
use fluxor_db.Base.Int.{ℤ, pos}
use fluxor_db.Cache.{InMemoryCache}
use fluxor_db.Config.{RuntimeConfig}
use fluxor_db.Db
use fluxor_db.Db.{AdvancedDb, Moment}
use fluxor_db.Db.Config.{DbAdvancedConfig}
use fluxor_db.Db.Metrics
use fluxor_db.Db.Metrics.{MetricsStats}
use fluxor_db.Db.Statements
use fluxor_db.Errors.{Err, Result, err, message, wrapped}
use fluxor_db.Gate
use fluxor_db.Gate.{ConnectionGate}
use fluxor_db.Gate.Config.{GateConfig}
use fluxor_db.Manager
use fluxor_db.Manager.{AdvancedConfig, ConnectionManager}
use fluxor_db.Manager.Validator.{Pool}
use fluxor_db.Runtime.{CacheValue, new_cache}

pub record DbRuntime (Stmt Other : Type 0) : Type 0 where
  pub conn_manager : ConnectionManager
  pub gate : ConnectionGate
  pub advanced_db : Option (AdvancedDb Stmt)
  pub config : RuntimeConfig
  pub cache : Option (InMemoryCache (CacheValue Other))

-- The three parts of a RuntimeConfig.
unfoldable pub connection_config : RuntimeConfig → AdvancedConfig
connection_config c = record {
  database_type = c.database_type;
  dsn = c.dsn;
  max_open_conns = c.max_open_conns;
  max_idle_conns = c.max_idle_conns;
  conn_max_lifetime = c.conn_max_lifetime;
  conn_max_idle_time = c.conn_max_idle_time;
  leak_detection_threshold = c.leak_detection_threshold;
  validation_query = c.validation_query;
  validation_timeout = c.validation_timeout;
  warmup_connections = c.warmup_connections;
  warmup_timeout = c.warmup_timeout;
  connection_timeout = c.connection_timeout;
  enable_metrics = false;
  enable_leak_detection = c.enable_leak_detection;
}

unfoldable pub gate_config : RuntimeConfig → GateConfig
gate_config c = record {
  max_failures = c.circuit_breaker_max_failures;
  reset_timeout = c.circuit_breaker_reset_timeout;
  half_open_timeout = c.circuit_breaker_half_open_timeout;
  max_requests_per_second = c.max_requests_per_second;
  max_concurrent_connections = c.max_concurrent_connections;
  backpressure_mode = c.backpressure_mode;
  backpressure_timeout = c.backpressure_timeout;
}

unfoldable pub db_config : RuntimeConfig → DbAdvancedConfig
db_config c = record {
  stmt_cache_size = c.stmt_cache_size;
  slow_query_threshold = c.slow_query_threshold;
  query_timeout = c.query_timeout;
  max_retries = c.max_retries;
  retry_backoff = c.retry_backoff;
}

unfoldable pub new_db_runtime : {Stmt Other : Type 0} → ℕ → RuntimeConfig → DbRuntime Stmt Other
unfolding connection_config gate_config
new_db_runtime now c = record {
  conn_manager = Manager.new_connection_manager (connection_config c);
  gate = Gate.new_connection_gate now (some (gate_config c));
  advanced_db = none;
  config = c;
  cache = new_cache c;
}

-- How a call ends: it uses the AdvancedDB before there is one, it stays blocked at the gate, or it
-- returns.
pub data Ended (X : Type 0) : Type 0 where
  nil_dereference blocked : Ended X
  returned : X → Ended X

abbrev pub not_connected : Err
not_connected = message "database not connected"

abbrev no_metrics : MetricsStats
no_metrics = record {
  total_queries = pos 0;
  successful_queries = pos 0;
  failed_queries = pos 0;
  average_query_time = pos 0;
  slow_queries = pos 0;
}

-- The statements of the cache are closed.
abbrev pub cleared : {Stmt : Type 0} → Option (AdvancedDb Stmt) → Option (AdvancedDb Stmt)
cleared none = none
cleared (some adb) = some (record adb { stmt_cache = (Statements.clear adb.stmt_cache).0 })

module _ {Stmt Other : Type 0} where
  abbrev pub with_db : AdvancedDb Stmt → DbRuntime Stmt Other → DbRuntime Stmt Other
  with_db adb r = record r { gate = adb.gate; advanced_db = some adb }

  unfoldable pub is_connected : DbRuntime Stmt Other → Bool
  is_connected r = r.conn_manager.opened

  unfoldable pub circuit_breaker_state : DbRuntime Stmt Other → String
  circuit_breaker_state r = Gate.state_text r.gate

  module _ {Ctx S : Type 0} (pool : Pool Ctx S) where
    unfoldable pub opened_as :
        DbRuntime Stmt Other
        → ConnectionManager × S × Option Err
        → DbRuntime Stmt Other × S × Option Err
    unfolding db_config
    opened_as r (cm, s, some e) =
        (record r { conn_manager = cm }, s, some (wrapped "failed to open connection: " e ""))
    opened_as r (cm, s, none) = (
      record r {
        conn_manager = cm;
        advanced_db = some (Db.new_advanced_db r.gate (some (db_config r.config)));
      },
      s,
      none,
    )

    unfoldable pub connect : DbRuntime Stmt Other → S → DbRuntime Stmt Other × S × Option Err
    unfolding opened_as
    connect r s = opened_as r (Manager.open_db pool r.conn_manager s)

    abbrev pub closed_as :
        DbRuntime Stmt Other
        → Option (ConnectionManager × S × Option Err)
        → Option (DbRuntime Stmt Other × S × Option Err)
    closed_as r none = none
    closed_as r (some (cm, s, e)) =
        some (record r { conn_manager = cm; advanced_db = cleared r.advanced_db }, s, e)

    -- `none` is the panic of Close.
    unfoldable pub disconnect :
        DbRuntime Stmt Other → S → Option (DbRuntime Stmt Other × S × Option Err)
    disconnect r s = closed_as r (Manager.close_db pool r.conn_manager s)

  module _ {S : Type 0} where
    abbrev pub finished :
        {A : Type 0}
        → DbRuntime Stmt Other
        → Option (AdvancedDb Stmt × S × A)
        → Ended (DbRuntime Stmt Other × S × A)
    finished r none = blocked
    finished r (some (adb, s, a)) = returned (with_db adb r, s, a)

    abbrev pub with_advanced_db :
        {A : Type 0}
        → Option (AdvancedDb Stmt)
        → (AdvancedDb Stmt → Option (AdvancedDb Stmt × S × A))
        → DbRuntime Stmt Other
        → Ended (DbRuntime Stmt Other × S × A)
    with_advanced_db none call r = nil_dereference
    with_advanced_db (some adb) call r = finished r (call adb)

    -- The test `!r.IsConnected()` of the calls, and what they answer then.
    unfoldable pub when_connected :
        {A : Type 0}
        → A
        → (AdvancedDb Stmt → S → Option (AdvancedDb Stmt × S × A))
        → DbRuntime Stmt Other
        → S
        → Ended (DbRuntime Stmt Other × S × A)
    when_connected refusal call r s =
        if r.conn_manager.opened
        then with_advanced_db r.advanced_db (λ adb. call adb s) r
        else returned (r, s, refusal)

    module _ (added : ℤ → ℤ → ℤ) (scale : ℤ → ℤ) {A : Type 0} (call : S → S × Result A)
        (m : Moment) where
      unfoldable pub exec : DbRuntime Stmt Other → S → Ended (DbRuntime Stmt Other × S × Result A)
      unfolding when_connected
      exec = when_connected (err not_connected) (Db.exec added scale call m)

      unfoldable pub query : DbRuntime Stmt Other → S → Ended (DbRuntime Stmt Other × S × Result A)
      unfolding when_connected
      query = when_connected (err not_connected) (Db.query added scale call m)

      unfoldable pub begin : DbRuntime Stmt Other → S → Ended (DbRuntime Stmt Other × S × Result A)
      unfolding when_connected
      begin = when_connected (err not_connected) (Db.begin added scale call m)

    -- There is a row, whatever the database answers, unless the runtime is not connected.
    unfoldable pub query_row :
        (ℤ → ℤ → ℤ)
        → (ℤ → ℤ)
        → {A : Type 0} → Moment
        → (S → S × A)
        → DbRuntime Stmt Other
        → S
        → Ended (DbRuntime Stmt Other × S × Option A)
    unfolding when_connected
    query_row added scale m row = when_connected none (λ adb s.
        let (adb', s', a) = Db.query_row added scale row m adb s in some (adb', s', some a))

    unfoldable pub prepare :
        (S → S × Result Stmt)
        → String
        → ℕ
        → DbRuntime Stmt Other
        → S
        → Ended (DbRuntime Stmt Other × S × Result Stmt)
    unfolding when_connected
    prepare call text pick =
        when_connected (err not_connected) (λ adb s. some (Db.prepare call text pick adb s))

    unfoldable pub health_check :
        (S → S × Option Err)
        → DbRuntime Stmt Other
        → S
        → Ended (DbRuntime Stmt Other × S × Option Err)
    unfolding when_connected
    health_check ping =
        when_connected (some not_connected) (λ adb s. let (s', e) = ping s in some (adb, s', e))

    unfoldable pub metrics :
        DbRuntime Stmt Other → S → Ended (DbRuntime Stmt Other × S × MetricsStats)
    unfolding when_connected
    metrics = when_connected no_metrics (λ adb s. some (adb, s, Metrics.get_stats adb.metrics))
