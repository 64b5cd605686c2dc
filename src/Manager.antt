-- ===== src/Manager.antt =====
-- open.go: ConnectionManager, its leak detector and its validator.
--
-- database/sql stands behind a `Pool`, on a state `S` that holds the database and the time, with
-- contexts of the type `Ctx`. Closing a channel that is closed panics.
pub mod Validator
pub mod Defaults
pub mod Tracking
pub mod Validated
pub mod Later
pub mod Closing
use Prim.Native.String.{◌++◌}
use fluxor_db.Base.{
  ℕ, ◌+◌, ◌-◌, String, Bool, true, false, not, Option, none, some, List, [], ◌∷◌, append, str_eq,
  ◌||◌, ◌&&◌, ◌==◌, zero, suc, min, if◌then◌else◌,
}
use fluxor_db.Base.Int.{ℤ, pos, pos_part, neg_part, uint64, is_pos, ltb_ℤ, sub_ℕ}
use fluxor_db.Config.{oracle, postgresql, mysql, sqlite, plain_query, dual_query}
use fluxor_db.Errors.{Err, Result, ok, err, message, wrapped}
use Validator.{Pool, ConnectionValidator, validate}

pub record AdvancedConfig : Type 0 where
  pub database_type : String
  pub dsn : String
  pub max_open_conns : ℤ
  pub max_idle_conns : ℤ
  pub conn_max_lifetime : ℤ
  pub conn_max_idle_time : ℤ
  pub leak_detection_threshold : ℤ
  pub validation_query : String
  pub validation_timeout : ℤ
  pub warmup_connections : ℤ
  pub warmup_timeout : ℤ
  pub connection_timeout : ℤ
  pub enable_metrics : Bool
  pub enable_leak_detection : Bool

pub record TrackedConnection : Type 0 where
  pub id : ℕ
  pub acquired_at : ℕ
  pub last_used_at : ℕ
  pub query_count : ℕ

-- A callback is known by a number.
pub record LeakDetector : Type 0 where
  pub max_connection_age : ℤ
  pub check_interval : ℤ
  pub stop_closed : Bool
  pub leak_callback : Option ℕ
  pub loops : ℕ  -- the goroutines that Start has started

pub record ConnectionManager : Type 0 where
  pub opened : Bool  -- db is not nil
  pub config : AdvancedConfig
  pub active_connections : List TrackedConnection
  pub connection_id : ℕ
  pub leak_detector : Option LeakDetector
  pub validator : ConnectionValidator
  pub warmup_done : Bool
  pub warmups : ℕ  -- the goroutines of warmupConnections that Open has started

unfoldable pub new_leak_detector : AdvancedConfig → Option LeakDetector
new_leak_detector c =
    if c.enable_leak_detection
    then some (record {
      max_connection_age = c.leak_detection_threshold;
      check_interval = pos 30000000000;
      stop_closed = false;
      leak_callback = none;
      loops = 0;
    })
    else none

unfoldable pub new_connection_validator : AdvancedConfig → ConnectionValidator
new_connection_validator c = record {
  validation_query = c.validation_query;
  timeout = c.validation_timeout;
  max_retries = 3;
  retry_backoff = pos 100000000;
}

abbrev is_zero : ℤ → Bool
is_zero x = (pos_part x == 0) && (neg_part x == 0)

abbrev or_else : ℤ → ℤ → ℤ
or_else x default = if is_zero x then default else x

-- The defaults of NewConnectionManager, in the order of the code.
unfoldable pub with_defaults : AdvancedConfig → AdvancedConfig
with_defaults c =
    let query =
      if str_eq c.database_type postgresql || str_eq c.database_type mysql
      then plain_query
      else dual_query in
    record {
      database_type = if str_eq c.database_type "" then sqlite else c.database_type;
      dsn = c.dsn;
      max_open_conns = or_else c.max_open_conns (pos 25);
      max_idle_conns = or_else c.max_idle_conns (pos 5);
      conn_max_lifetime = or_else c.conn_max_lifetime (pos 1800000000000);
      conn_max_idle_time = or_else c.conn_max_idle_time (pos 600000000000);
      leak_detection_threshold = or_else c.leak_detection_threshold (pos 600000000000);
      validation_query = if str_eq c.validation_query "" then query else c.validation_query;
      validation_timeout = or_else c.validation_timeout (pos 5000000000);
      warmup_connections = c.warmup_connections;
      warmup_timeout = c.warmup_timeout;
      connection_timeout = or_else c.connection_timeout (pos 30000000000);
      enable_metrics = c.enable_metrics;
      enable_leak_detection = c.enable_leak_detection;
    }

-- The detector and the validator are made from the configuration before its defaults are set.
unfoldable pub new_connection_manager : AdvancedConfig → ConnectionManager
unfolding new_leak_detector new_connection_validator with_defaults
new_connection_manager c = record {
  opened = false;
  config = with_defaults c;
  active_connections = [];
  connection_id = 0;
  leak_detector = new_leak_detector c;
  validator = new_connection_validator c;
  warmup_done = false;
  warmups = 0;
}

-- LeakDetector.Start and LeakDetector.Stop; `none` is the panic of close.
unfoldable pub start_detector : Option LeakDetector → Option LeakDetector
start_detector none = none
start_detector (some ld) = some (record ld { loops = ld.loops + 1 })

unfoldable pub stop_detector : Option LeakDetector → Option (Option LeakDetector)
stop_detector none = some none
stop_detector (some ld) =
    if ld.stop_closed then none else some (some (record ld { stop_closed = true }))

-- The calls of the callback, each with the connection and its age.
unfoldable pub reports : ℕ → ℕ → ℤ → List TrackedConnection → List (ℕ × ℕ × ℤ)
reports now callback max_age [] = []
reports now callback max_age (c ∷ cs) =
    let age = sub_ℕ now c.acquired_at in
    let rest = reports now callback max_age cs in
    if ltb_ℤ max_age age then (callback, c.id, age) ∷ rest else rest

unfoldable pub check_leaks : ℕ → LeakDetector → ConnectionManager → List (ℕ × ℕ × ℤ)
unfolding reports
check_leaks now ld cm = elim ld.leak_callback [
  | none ↦ []
  | some callback ↦ reports now callback ld.max_connection_age cm.active_connections
]

-- The driver's name for a database type, and the type that the configuration is left with.
unfoldable pub driver_name : String → String × String
driver_name t =
    if str_eq t postgresql
    then ("postgres", t)
    else if str_eq t mysql
    then ("mysql", t)
    else if str_eq t oracle
    then ("godror", t)
    else if str_eq t sqlite
    then ("sqlite3", t)
    else ("sqlite3", sqlite)

-- The entry of a map is replaced: what is left of it without that number.
unfoldable pub without : ℕ → List TrackedConnection → List TrackedConnection
without i [] = []
without i (c ∷ cs) = let rest = without i cs in if c.id == i then rest else c ∷ rest

unfoldable pub track_connection : ℕ → ConnectionManager → ConnectionManager
unfolding without
track_connection now cm =
    let i = uint64 (cm.connection_id + 1) in
    record cm {
      connection_id = i;
      active_connections =
          record { id = i; acquired_at = now; last_used_at = now; query_count = 0 }
          ∷ without i cm.active_connections;
    }

module _ {Ctx S : Type 0} (pool : Pool Ctx S) where
  -- The connection pool is there: what is configured, and whether it answers.
  unfoldable pub pinged : ConnectionManager → S × Option Err → ConnectionManager × S × Option Err
  pinged cm (s, some e) = (cm, (pool.close_db s).0, some (wrapped "failed to ping database: " e ""))
  pinged cm (s, none) = (
    record cm {
      opened = true;
      leak_detector =
          if cm.config.enable_leak_detection
          then start_detector cm.leak_detector
          else cm.leak_detector;
      warmups = if is_pos cm.config.warmup_connections then cm.warmups + 1 else cm.warmups;
    },
    s,
    none,
  )

  unfoldable pub connected : ConnectionManager → S × Option Err → ConnectionManager × S × Option Err
  unfolding pinged
  connected cm (s, some e) =
      (cm, s, some (wrapped ("failed to open " ++ (cm.config.database_type ++ " database: ")) e ""))
  connected cm (s, none) =
      let c = cm.config in
      let s' =
        pool.set_limits c.max_open_conns c.max_idle_conns c.conn_max_lifetime c.conn_max_idle_time
          s in
      pinged cm (pool.ping (pool.with_timeout c.connection_timeout pool.background s') s')

  -- Open; the goroutine that it may start is a call of `warmup_connections` at some later time.
  unfoldable pub open_db : ConnectionManager → S → ConnectionManager × S × Option Err
  unfolding connected driver_name
  open_db cm s =
      if cm.opened
      then (cm, s, none)
      else (let (name, t) = driver_name cm.config.database_type in
          connected (record cm { config = record cm.config { database_type = t } })
            (pool.open_pool name cm.config.dsn s))

  -- The connections of warmupConnections: `n` of them, an error of one is passed over.
  unfoldable pub warm_up : ℕ → Ctx → S → S
  warm_up zero ctx s = s
  warm_up (suc n) ctx s =
      let (s', e) = pool.conn ctx s in
      warm_up n ctx (elim e [ some _ ↦ s' | none ↦ pool.close_conn s' ])

  unfoldable pub warmup_connections : ConnectionManager → S → ConnectionManager × S
  unfolding warm_up
  warmup_connections cm s =
      let c = cm.config in
      if cm.warmup_done || not cm.opened then (cm, s) else (
        record cm { warmup_done = true },
        warm_up (min (pos_part c.warmup_connections) (pos_part c.max_idle_conns))
            (pool.with_timeout
              (if is_zero c.warmup_timeout then pos 30000000000 else c.warmup_timeout)
              pool.background s)
            s,
      )

  unfoldable pub validated :
      ℕ → ConnectionManager → S × Option Err → ConnectionManager × S × Option Err
  validated now cm (s, some e) =
      (cm, pool.close_conn s, some (wrapped "connection validation failed: " e ""))
  validated now cm (s, none) =
      (if cm.config.enable_leak_detection then track_connection now cm else cm, s, none)

  unfoldable pub received :
      ℕ → Ctx → ConnectionManager → S × Option Err → ConnectionManager × S × Option Err
  unfolding validated
  received now ctx cm (s, some e) = (cm, s, some (wrapped "failed to acquire connection: " e ""))
  received now ctx cm (s, none) = validated now cm (validate pool cm.validator ctx s)

  -- A connection is tracked at the time `now`.
  unfoldable pub acquire_connection :
      ℕ → Ctx → ConnectionManager → S → ConnectionManager × S × Option Err
  unfolding received
  acquire_connection now ctx cm s =
      if cm.opened
      then received now ctx cm (pool.conn ctx s)
      else (cm, s, some (message "database not opened"))

  unfoldable pub release_connection : ConnectionManager → S → ConnectionManager × S
  release_connection cm s = (cm, pool.close_conn s)

  unfoldable pub closed : ConnectionManager → S × Option Err → ConnectionManager × S × Option Err
  closed cm (s, some e) = (cm, s, some (wrapped "failed to close database: " e ""))
  closed cm (s, none) = (record cm { opened = false; active_connections = [] }, s, none)

  -- What is left of Close when the detector has been stopped.
  unfoldable pub close_pool : ConnectionManager → S → ConnectionManager × S × Option Err
  unfolding closed
  close_pool cm s =
      if cm.opened
      then closed cm (pool.close_db s)
      else (record cm { active_connections = [] }, s, none)

  abbrev pub closes :
      ConnectionManager
      → S
      → Option (Option LeakDetector)
      → Option (ConnectionManager × S × Option Err)
  closes cm s none = none
  closes cm s (some d) = some (close_pool (record cm { leak_detector = d }) s)

  -- `none` is the panic of close.
  unfoldable pub close_db : ConnectionManager → S → Option (ConnectionManager × S × Option Err)
  unfolding stop_detector
  close_db cm s = closes cm s (stop_detector cm.leak_detector)
