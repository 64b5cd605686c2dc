-- ===== src/Runtime/Recovery.antt =====
-- errors.go: ErrorRecovery on a runtime. While HandleError sleeps, the other goroutines change the
-- runtime: `slept` is their work.
pub mod Handled
use Prim.Native.String.{◌++◌}
use fluxor_db.Base.{String, Bool, Option, none, some, str_eq, if◌then◌else◌}
use fluxor_db.Errors.{
  Err, wrapped, error_text, wrap_error, is_retryable_error, is_circuit_breaker_error,
}
use fluxor_db.Errors.Code
use fluxor_db.Manager.Validator.{Pool}
use fluxor_db.Runtime.Lifecycle.{
  DbRuntime, Ended, nil_dereference, blocked, returned, is_connected, circuit_breaker_state,
  connect, health_check,
}

-- CircuitStateOpen, as text.
abbrev pub circuit_state_open : String
circuit_state_open = "open"

-- How a recovery ends.
abbrev pub Recovery : Type 0 → Type 0 → Type 0 → Type 0
Recovery Stmt Other S = Ended (DbRuntime Stmt Other × S × Option Err)

module _ {Stmt Other S : Type 0} where
  unfoldable pub checked : Recovery Stmt Other S → Recovery Stmt Other S
  checked nil_dereference = nil_dereference
  checked blocked = blocked
  checked (returned (r, s, e)) =
      returned (r, s, wrap_error Code.connection_failed "connection health check failed" e)

  unfoldable pub recovered : Err → Recovery Stmt Other S → Recovery Stmt Other S
  recovered e nil_dereference = nil_dereference
  recovered e blocked = blocked
  recovered e (returned (r, s, none)) = returned (r, s, some e)
  recovered e (returned (r, s, some f)) =
      returned
        (r, s, some (wrapped "recovery failed: " f (" (original error: " ++ error_text e ++ ")")))

  -- After the second that HandleError sleeps.
  unfoldable pub waited : Err → DbRuntime Stmt Other × S → Recovery Stmt Other S
  waited e (r, s) =
      returned (r, s, if str_eq (circuit_breaker_state r) circuit_state_open then some e else none)

module _ {Stmt Other : Type 0} {Ctx S : Type 0} (pool : Pool Ctx S)
    (ping : S → S × Option Err) where
  -- From the health check on.
  unfoldable pub verified : DbRuntime Stmt Other → S → Recovery Stmt Other S
  unfolding checked
  verified r s = checked (health_check ping r s)

  unfoldable pub reconnected : DbRuntime Stmt Other × S × Option Err → Recovery Stmt Other S
  unfolding verified
  reconnected (r, s, none) = verified r s
  reconnected (r, s, some e) =
      returned (r, s, wrap_error Code.connection_failed "failed to reconnect" (some e))

  unfoldable pub recover_connection : DbRuntime Stmt Other → S → Recovery Stmt Other S
  unfolding verified reconnected
  recover_connection r s = if is_connected r then verified r s else reconnected (connect pool r s)

  unfoldable pub handle_error :
      (DbRuntime Stmt Other × S → DbRuntime Stmt Other × S)
      → DbRuntime Stmt Other
      → S
      → Option Err
      → Recovery Stmt Other S
  unfolding waited recovered
  handle_error slept r s none = returned (r, s, none)
  handle_error slept r s (some e) =
      if is_circuit_breaker_error e
      then waited e (slept (r, s))
      else if is_retryable_error e
      then recovered e (recover_connection r s)
      else returned (r, s, some e)
