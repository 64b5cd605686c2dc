-- ===== src/Runtime/Diagnosed.antt =====
-- utils.go: GetDiagnostics, CheckHealth and DisconnectWithLog on a runtime, and Stats of
-- dbruntime.go, which they read. `ping` is PingContext and `pool_stats` is sql.DB's Stats.
pub mod Healthy
use fluxor_db.Base.{ℕ, String, Option, none, some}
use fluxor_db.Base.Int.{pos}
use fluxor_db.Db.Metrics.{MetricsStats}
use fluxor_db.Errors.{Err}
use fluxor_db.Manager.Validator.{Pool}
use fluxor_db.Monitor.{Diagnostics}
use fluxor_db.Runtime.Lifecycle.{
  DbRuntime, Ended, nil_dereference, blocked, returned, circuit_breaker_state, when_connected,
  health_check, metrics, disconnect,
}
use fluxor_db.Tcp.Protocol.{StatsResult}
use fluxor_db.Utils.{HealthStatus, check_health}

abbrev pub no_stats : StatsResult
no_stats = record {
  max_open_connections = pos 0;
  open_connections = pos 0;
  in_use = pos 0;
  idle = pos 0;
  wait_count = pos 0;
  wait_duration = pos 0;
  max_idle_closed = pos 0;
  max_idle_time_closed = pos 0;
  max_lifetime_closed = pos 0;
}

module _ {Stmt Other S : Type 0} (pool_stats : S → StatsResult) where
  unfoldable pub stats : DbRuntime Stmt Other → S → Ended (DbRuntime Stmt Other × S × StatsResult)
  unfolding when_connected
  stats = when_connected no_stats (λ adb s. some (adb, s, pool_stats s))

  -- GetDiagnostics, after the statistics and after the metrics.
  abbrev pub described :
      ℕ
      → StatsResult
      → Ended (DbRuntime Stmt Other × S × MetricsStats)
      → Ended (DbRuntime Stmt Other × S × Diagnostics)
  described now t nil_dereference = nil_dereference
  described now t blocked = blocked
  described now t (returned (r, s, m)) = returned (
    r,
    s,
    record {
      connection_stats = t;
      metrics = m;
      circuit_breaker = circuit_breaker_state r;
      timestamp = now;
    },
  )

  measured :
      ℕ
      → Ended (DbRuntime Stmt Other × S × StatsResult)
      → Ended (DbRuntime Stmt Other × S × Diagnostics)
  unfolding metrics
  measured now nil_dereference = nil_dereference
  measured now blocked = blocked
  measured now (returned (r, s, t)) = described now t (metrics r s)

  unfoldable pub get_diagnostics :
      ℕ → DbRuntime Stmt Other → S → Ended (DbRuntime Stmt Other × S × Diagnostics)
  unfolding stats measured
  get_diagnostics now r s = measured now (stats r s)

  -- CheckHealth, after the statistics and after the health check.
  abbrev pub judged :
      ℕ
      → Ended (DbRuntime Stmt Other × S × StatsResult)
      → Ended (DbRuntime Stmt Other × S × HealthStatus)
  judged now nil_dereference = nil_dereference
  judged now blocked = blocked
  judged now (returned (r, s, t)) =
      returned (r, s, check_health now none (circuit_breaker_state r) t)

  -- Without a connection there is nothing more to read. The state of the circuit is read before the
  -- statistics, which do not change it.
  unfoldable pub examined :
      ℕ
      → Ended (DbRuntime Stmt Other × S × Option Err)
      → Ended (DbRuntime Stmt Other × S × HealthStatus)
  unfolding stats
  examined now nil_dereference = nil_dereference
  examined now blocked = blocked
  examined now (returned (r, s, some e)) =
      returned (r, s, check_health now (some e) (circuit_breaker_state r) no_stats)
  examined now (returned (r, s, none)) = judged now (stats r s)

  unfoldable pub check_runtime :
      (S → S × Option Err)
      → ℕ
      → DbRuntime Stmt Other
      → S
      → Ended (DbRuntime Stmt Other × S × HealthStatus)
  unfolding examined
  check_runtime ping now r s = examined now (health_check ping r s)

-- The error is logged; `none` is the panic of Close.
unfoldable pub disconnect_with_log :
    {Stmt Other Ctx S : Type 0}
    → Pool Ctx S
    → DbRuntime Stmt Other
    → S
    → Option (DbRuntime Stmt Other × S)
disconnect_with_log pool r s = elim (disconnect pool r s) [
  | none ↦ none
  | some (r', s', e) ↦ some (r', s')
]
