-- ===== src/Tests/Diagnoses.antt =====
-- The theorem on CheckHealth.
use fluxor_db.Base.{ℕ, suc, ◌≡◌, ◌≢◌, ◌↔◌, refl, true, false, Option, none}
use fluxor_db.Base.Int.{pos, leb_ℤ}
use fluxor_db.Errors.{Err}
use fluxor_db.Runtime.Connected.{Later}
use fluxor_db.Runtime.Diagnosed
use fluxor_db.Runtime.Diagnosed.{no_stats}
use fluxor_db.Runtime.Diagnosed.Healthy
use fluxor_db.Runtime.Lifecycle as Runtime
use fluxor_db.Runtime.Lifecycle.{DbRuntime, Ended}
use fluxor_db.Tcp.Protocol.{StatsResult}
use fluxor_db.Utils.{HealthStatus}
use fluxor_db.Tests.Lifecycles.{connected}
use fluxor_db.Tests.Managers.{pool}
use fluxor_db.Tests.Settings.{oracle_config}

abbrev answers : ℕ → ℕ × Option Err
answers n = (suc n, none)

-- One connection is open of at most two.
abbrev half_used : ℕ → StatsResult
half_used n = record no_stats { max_open_connections = pos 2; open_connections = pos 1 }

check_runtime-Healthy_example :
    (q' : DbRuntime ℕ ℕ) × (s' : ℕ) × (h : HealthStatus) × (Diagnosed.check_runtime half_used
        answers 9 connected 4
      ≡ Ended.returned (q', s', h))
    × ((h.healthy ≡ true) ↔ (
        (Runtime.is_connected connected ≡ true)
        × ((answers 4).1 ≡ none)
        × (Runtime.circuit_breaker_state q' ≢ "open")
        × (leb_ℤ (pos 2) (pos 1) ≡ false)))
check_runtime-Healthy_example =
    Healthy.check_runtime-Healthy pool half_used answers 0 9 oracle_config connected 4
      (Later.connecting Later.unchanged 0)

-- A pool without a maximum has the maximum zero in its statistics.
unlimited_is_full : leb_ℤ no_stats.max_open_connections no_stats.open_connections ≡ true
unlimited_is_full = refl
