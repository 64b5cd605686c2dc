-- ===== src/Gate/Config.antt =====
-- gate.go, GateConfig. Durations are nanoseconds; a Go int, an int64 and a Duration are a ℤ.
use fluxor_db.Base.{String}
use fluxor_db.Base.Int.{ℤ}

pub record GateConfig : Type 0 where
  pub max_failures : ℤ
  pub reset_timeout : ℤ
  pub half_open_timeout : ℤ
  pub max_requests_per_second : ℤ
  pub max_concurrent_connections : ℤ
  pub backpressure_mode : String
  pub backpressure_timeout : ℤ
