-- ===== src/Db/Config.antt =====
-- db.go, DbAdvancedConfig.
use fluxor_db.Base.Int.{ℤ}

pub record DbAdvancedConfig : Type 0 where
  pub stmt_cache_size : ℤ
  pub slow_query_threshold : ℤ
  pub query_timeout : ℤ
  pub max_retries : ℤ
  pub retry_backoff : ℤ
