-- ===== src/Config.antt =====
-- config.go: the defaults from the environment, the builder and its check.
--
-- `Environment` is os.Getenv, which answers "" for an unset name, with the parsers of strconv and
-- time, which answer `none` for an error. The builder's methods return the changed configuration.
pub mod Queries
use fluxor_db.Base.{
  String, Bool, true, false, ◌&&◌, ◌||◌, Option, none, some, List, [], ◌∷◌, str_eq, if◌then◌else◌,
}
use fluxor_db.Base.Int.{ℤ, pos, leb_ℤ, ltb_ℤ}
use fluxor_db.Errors.{Err, message}

pub record Environment : Type 0 where
  pub getenv : String → String
  pub atoi : String → Option ℤ
  pub parse_int : String → Option ℤ
  pub parse_bool : String → Option Bool
  pub parse_duration : String → Option ℤ

-- The database types of dbruntime.go.
abbrev pub oracle : String
oracle = "oracle"

abbrev pub postgresql : String
postgresql = "postgres"

abbrev pub mysql : String
mysql = "mysql"

abbrev pub sqlite : String
sqlite = "sqlite"

-- The two validation queries.
abbrev pub plain_query : String
plain_query = "SELECT 1"

abbrev pub dual_query : String
dual_query = "SELECT 1 FROM DUAL"

pub record RuntimeConfig : Type 0 where
  pub database_type : String
  pub dsn : String
  pub max_open_conns : ℤ
  pub max_idle_conns : ℤ
  pub conn_max_lifetime : ℤ
  pub conn_max_idle_time : ℤ
  pub leak_detection_threshold : ℤ
  pub validation_query : String
  pub validation_timeout : ℤ
  pub warmup_connections : ℤ
  pub warmup_timeout : ℤ
  pub connection_timeout : ℤ
  pub enable_leak_detection : Bool
  pub circuit_breaker_max_failures : ℤ
  pub circuit_breaker_reset_timeout : ℤ
  pub circuit_breaker_half_open_timeout : ℤ
  pub max_requests_per_second : ℤ
  pub max_concurrent_connections : ℤ
  pub stmt_cache_size : ℤ
  pub slow_query_threshold : ℤ
  pub query_timeout : ℤ
  pub max_retries : ℤ
  pub retry_backoff : ℤ
  pub backpressure_mode : String
  pub backpressure_timeout : ℤ
  pub enable_aggressive_caching : Bool
  pub cache_default_ttl : ℤ
  pub cache_capacity : ℤ
  pub in_memory_mode : Bool

module _ (env : Environment) where
  unfoldable pub get_env : String → String → String
  get_env key default = let value = env.getenv key in if str_eq value "" then default else value

  abbrev or_default : {A : Type 0} → A → Option A → A
  or_default default none = default
  or_default default (some a) = a

  -- getEnvInt, getEnvInt64, getEnvBool and getEnvDuration, which differ in the parser.
  unfoldable pub get_env_with : {A : Type 0} → (String → Option A) → String → A → A
  get_env_with parse key default =
      let value = env.getenv key in
      if str_eq value "" then default else or_default default (parse value)

  unfoldable pub default_config : RuntimeConfig
  unfolding get_env get_env_with
  default_config =
      let db_type = get_env "DB_TYPE" sqlite in
      let dsn = get_env "DB_DSN" "" in
      let query = if str_eq db_type oracle then dual_query else plain_query in
      let int = get_env_with env.atoi in
      let int64 = get_env_with env.parse_int in
      let bool = get_env_with env.parse_bool in
      let duration = get_env_with env.parse_duration in
      record {
        database_type = db_type;
        dsn = if str_eq dsn "" && str_eq db_type sqlite then ":memory:" else dsn;
        max_open_conns = int "DB_MAX_OPEN_CONNS" (pos 50);
        max_idle_conns = int "DB_MAX_IDLE_CONNS" (pos 10);
        conn_max_lifetime = duration "DB_CONN_MAX_LIFETIME" (pos 1800000000000);
        conn_max_idle_time = duration "DB_CONN_MAX_IDLE_TIME" (pos 600000000000);
        leak_detection_threshold = duration "DB_LEAK_DETECTION_THRESHOLD" (pos 600000000000);
        validation_query = get_env "DB_VALIDATION_QUERY" query;
        validation_timeout = duration "DB_VALIDATION_TIMEOUT" (pos 5000000000);
        warmup_connections = int "DB_WARMUP_CONNECTIONS" (pos 5);
        warmup_timeout = duration "DB_WARMUP_TIMEOUT" (pos 30000000000);
        connection_timeout = duration "DB_CONNECTION_TIMEOUT" (pos 30000000000);
        enable_leak_detection = bool "DB_ENABLE_LEAK_DETECTION" true;
        circuit_breaker_max_failures = int "DB_CB_MAX_FAILURES" (pos 5);
        circuit_breaker_reset_timeout = duration "DB_CB_RESET_TIMEOUT" (pos 60000000000);
        circuit_breaker_half_open_timeout = duration "DB_CB_HALF_OPEN_TIMEOUT" (pos 10000000000);
        max_requests_per_second = int64 "DB_MAX_REQUESTS_PER_SEC" (pos 1000);
        max_concurrent_connections = int64 "DB_MAX_CONCURRENT_CONNECTIONS" (pos 100);
        stmt_cache_size = int "DB_STMT_CACHE_SIZE" (pos 200);
        slow_query_threshold = duration "DB_SLOW_QUERY_THRESHOLD" (pos 1000000000);
        query_timeout = duration "DB_QUERY_TIMEOUT" (pos 30000000000);
        max_retries = int "DB_MAX_RETRIES" (pos 3);
        retry_backoff = duration "DB_RETRY_BACKOFF" (pos 100000000);
        backpressure_mode = get_env "DB_BACKPRESSURE_MODE" "drop";
        backpressure_timeout = duration "DB_BACKPRESSURE_TIMEOUT" (pos 0);
        enable_aggressive_caching = bool "DB_AGGRESSIVE_CACHING" false;
        cache_default_ttl = duration "DB_CACHE_DEFAULT_TTL" (pos 300000000000);
        cache_capacity = int "DB_CACHE_CAPACITY" (pos 10000);
        in_memory_mode = bool "DB_IN_MEMORY_MODE" false;
      }

unfoldable pub with_database_type : String → RuntimeConfig → RuntimeConfig
with_database_type t c =
    let c' = record c { database_type = t } in
    if str_eq t postgresql || (str_eq t mysql || str_eq t sqlite)
    then if str_eq c.validation_query dual_query
      then record c' { validation_query = plain_query }
      else c'
    else if str_eq t oracle
    then if str_eq c.validation_query plain_query
      then record c' { validation_query = dual_query }
      else c'
    else c'

unfoldable pub with_dsn : String → RuntimeConfig → RuntimeConfig
with_dsn dsn c = record c { dsn = dsn }

unfoldable pub with_connection_pool : ℤ → ℤ → RuntimeConfig → RuntimeConfig
with_connection_pool max_open max_idle c = record c {
  max_open_conns = max_open;
  max_idle_conns = max_idle;
}

unfoldable pub with_connection_lifetime : ℤ → ℤ → RuntimeConfig → RuntimeConfig
with_connection_lifetime max_lifetime max_idle_time c = record c {
  conn_max_lifetime = max_lifetime;
  conn_max_idle_time = max_idle_time;
}

unfoldable pub with_leak_detection : Bool → ℤ → RuntimeConfig → RuntimeConfig
with_leak_detection enabled threshold c = record c {
  enable_leak_detection = enabled;
  leak_detection_threshold = threshold;
}

unfoldable pub with_circuit_breaker : ℤ → ℤ → ℤ → RuntimeConfig → RuntimeConfig
with_circuit_breaker max_failures reset_timeout half_open_timeout c = record c {
  circuit_breaker_max_failures = max_failures;
  circuit_breaker_reset_timeout = reset_timeout;
  circuit_breaker_half_open_timeout = half_open_timeout;
}

unfoldable pub with_rate_limit : ℤ → RuntimeConfig → RuntimeConfig
with_rate_limit max_requests c = record c { max_requests_per_second = max_requests }

unfoldable pub with_backpressure : String → ℤ → RuntimeConfig → RuntimeConfig
with_backpressure mode timeout c = record c {
  backpressure_mode = mode;
  backpressure_timeout = timeout;
}

unfoldable pub with_in_memory_mode : Bool → RuntimeConfig → RuntimeConfig
with_in_memory_mode false c = record c { in_memory_mode = false }
with_in_memory_mode true c =
    let cached = record c {
      in_memory_mode = true;
      enable_aggressive_caching = true;
      cache_default_ttl = pos 600000000000;
      cache_capacity = pos 50000;
    } in
    if str_eq c.dsn "" then record cached { database_type = sqlite; dsn = ":memory:" } else cached

unfoldable pub with_aggressive_caching : ℤ → ℤ → RuntimeConfig → RuntimeConfig
with_aggressive_caching capacity default_ttl c = record c {
  enable_aggressive_caching = true;
  cache_capacity = capacity;
  cache_default_ttl = default_ttl;
}

unfoldable pub with_query_settings : ℤ → ℤ → ℤ → RuntimeConfig → RuntimeConfig
with_query_settings stmt_cache_size slow_query_threshold query_timeout c = record c {
  stmt_cache_size = stmt_cache_size;
  slow_query_threshold = slow_query_threshold;
  query_timeout = query_timeout;
}

unfoldable pub with_retry_policy : ℤ → ℤ → RuntimeConfig → RuntimeConfig
with_retry_policy max_retries backoff c = record c {
  max_retries = max_retries;
  retry_backoff = backoff;
}

-- Validate: the error, if there is one.
unfoldable pub validate : RuntimeConfig → Option Err
validate c =
    if str_eq c.dsn ""
    then some (message "DSN is required")
    else if leb_ℤ c.max_open_conns (pos 0)
    then some (message "MaxOpenConns must be greater than 0")
    else if ltb_ℤ c.max_open_conns c.max_idle_conns
    then some (message "MaxIdleConns cannot exceed MaxOpenConns")
    else if leb_ℤ c.max_idle_conns (pos 0)
    then some (message "MaxIdleConns must be greater than 0")
    else none
