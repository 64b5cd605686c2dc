-- ===== src/Tests/Recoveries.antt =====
-- The theorems on ErrorRecovery.
use fluxor_db.Base.{ℕ, suc, ◌≡◌, refl, Option, none, some}
use fluxor_db.Errors.{Err, circuit_open, deadline_exceeded, database_root, database}
use fluxor_db.Errors.Code
use fluxor_db.Runtime.Lifecycle.{Ended}
use fluxor_db.Runtime.Connected.{Later}
use fluxor_db.Runtime.Recovery
use fluxor_db.Runtime.Recovery.Handled
use fluxor_db.Tests.Lifecycles.{fresh, connected}
use fluxor_db.Tests.Settings.{oracle_config}
use fluxor_db.Tests.Managers.{pool}

abbrev healthy : ℕ → ℕ × Option Err
healthy n = (suc n, none)

abbrev sick : ℕ → ℕ × Option Err
sick n = (suc n, some deadline_exceeded)

recover_connection-Recovers_example :
    Handled.Recovers (Recovery.recover_connection pool healthy fresh 0)
recover_connection-Recovers_example =
    Handled.recover_connection-Recovers pool healthy 0 oracle_config fresh 0 Later.unchanged

abbrev timed_out : Err
timed_out = database_root Code.timeout "no answer"

handle_error-Handles_example :
    Handled.Handles timed_out
      (Recovery.handle_error pool sick (λ x. x) connected 3 (some timed_out))
handle_error-Handles_example =
    Handled.handle_error-Handles pool sick (λ x. x) 0 oracle_config connected 3 timed_out
      (Later.connecting Later.unchanged 0)

-- The gate's own error is not recognised.
open_is_kept :
    Recovery.handle_error pool healthy (λ x. x) fresh 3 (some circuit_open)
    ≡ Ended.returned (fresh, 3, some circuit_open)
unfolding Recovery.handle_error fluxor_db.Errors.is_circuit_breaker_error
    fluxor_db.Errors.is_retryable_error
open_is_kept = refl
