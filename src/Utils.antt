-- ===== src/Utils.antt =====
-- utils.go: QueryExecutor.Transaction, CheckHealth and WithRetry.
pub mod Executor
pub mod Outcomes
use Prim.Native.String.{◌++◌}
use fluxor_db.Base.{
  ℕ, zero, suc, ◌+◌, String, Bool, true, false, Option, none, some, List, [], ◌∷◌, str_eq,
  if◌then◌else◌,
}
use fluxor_db.Base.Decimal.{decimal}
use fluxor_db.Base.Int.{ℤ, pos, ◌*ℤ◌, int64, leb_ℤ}
use fluxor_db.Errors.{Err, Result, ok, err, wrapped, error_text}
use fluxor_db.Db
use fluxor_db.Db.{AdvancedDb, Moment}
use fluxor_db.Tcp.Protocol.{StatsResult}

-- How a function of the caller ends.
pub data Outcome : Type 0 where
  returned : Option Err → Outcome
  panicked : Outcome

-- The database's transactions, on its state `S`.
pub record Driver (S : Type 0) : Type 0 where
  pub begin_tx : S → S × Result (Unit {0})
  pub commit_tx : S → S × Option Err
  pub rollback_tx : S → S × Option Err

module _ (added : ℤ → ℤ → ℤ) (scale : ℤ → ℤ) {Stmt S : Type 0} (driver : Driver S) (m : Moment)
    (fn : AdvancedDb Stmt → S → AdvancedDb Stmt × S × Outcome) where
  -- tx.Commit() and tx.Rollback(), on the gate and on the database.
  abbrev pub committed : AdvancedDb Stmt → S × Option Err → AdvancedDb Stmt × S
  committed adb (s, e) = (record adb { gate = Db.commit m.later e adb.gate }, s)

  abbrev pub rolled_back : AdvancedDb Stmt → S × Option Err → AdvancedDb Stmt × S
  rolled_back adb (s, e) = (record adb { gate = Db.rollback m.later e adb.gate }, s)

  -- The deferred function. It sets the local variable `err` after the result has been copied, so
  -- the outcome stays that of `fn`.
  unfoldable pub deferred : AdvancedDb Stmt × S × Outcome → AdvancedDb Stmt × S
  deferred (adb, s, panicked) = rolled_back adb (driver.rollback_tx s)
  deferred (adb, s, returned (some e)) = rolled_back adb (driver.rollback_tx s)
  deferred (adb, s, returned none) = committed adb (driver.commit_tx s)

  begun : Option (AdvancedDb Stmt × S × Result (Unit {0})) → Option (AdvancedDb Stmt × S × Outcome)
  unfolding deferred
  begun none = none
  begun (some (adb, s, err e)) =
      some (adb, s, returned (some (wrapped "failed to begin transaction: " e "")))
  begun (some (adb, s, ok _)) =
      let end = fn adb s in let (adb', s') = deferred end in some (adb', s', end.2)

  -- Transaction; `none` when Begin stays blocked at the gate.
  unfoldable pub transaction : AdvancedDb Stmt → S → Option (AdvancedDb Stmt × S × Outcome)
  unfolding begun
  transaction adb s = begun (Db.begin added scale driver.begin_tx m adb s)

pub record HealthStatus : Type 0 where
  pub healthy : Bool
  pub text : String
  pub last_check : ℕ
  pub connection_ok : Bool
  pub circuit_breaker_ok : Bool

-- CheckHealth, from what HealthCheck, CircuitBreakerState and Stats answer at the time `now`.
unfoldable pub check_health : ℕ → Option Err → String → StatsResult → HealthStatus
check_health now (some e) state stats = record {
  healthy = false;
  text = "Connection check failed: " ++ error_text e;
  last_check = now;
  connection_ok = false;
  circuit_breaker_ok = false;
}
check_health now none state stats =
    if str_eq state "open"
    then record {
      healthy = false;
      text = "Circuit breaker is open";
      last_check = now;
      connection_ok = true;
      circuit_breaker_ok = false;
    }
    else if leb_ℤ stats.max_open_connections stats.open_connections
    then record {
      healthy = false;
      text = "Connection pool is at capacity";
      last_check = now;
      connection_ok = true;
      circuit_breaker_ok = true;
    }
    else record {
      healthy = true;
      text = "All systems operational";
      last_check = now;
      connection_ok = true;
      circuit_breaker_ok = true;
    }

-- What WithRetry leaves: the caller's state, the error, the pauses in order, the number of calls.
pub record Retried (S : Type 0) : Type 0 where
  pub state : S
  pub error : Option Err
  pub waited : List ℤ
  pub calls : ℕ

-- WithRetry with a number of retries that is not negative; `interrupted` is what the context says
-- at an attempt.
module _ {S : Type 0} (max_retries : ℕ) (interrupted : ℕ → Option Err)
    (fn : S → S × Option Err) where
  exhausted : Err → Err
  exhausted e = wrapped ("failed after " ++ decimal (max_retries + 1) ++ " attempts: ") e ""

  abbrev stop : S → Option Err → Retried S
  stop s e = record { state = s; error = e; waited = []; calls = 1 }

  abbrev again : ℤ → Retried S → Retried S
  again backoff r = record r { waited = backoff ∷ r.waited; calls = suc r.calls }

  -- The loop after a call; `left` attempts are left.
  unfoldable pub retry_loop : ℕ → ℕ → ℤ → S × Option Err → Retried S
  unfolding exhausted
  retry_loop left attempt backoff (s, none) = stop s none
  retry_loop zero attempt backoff (s, some e) = stop s (some (exhausted e))
  retry_loop (suc left) attempt backoff (s, some e) = elim (interrupted (attempt + 1)) [
    | some x ↦ stop s (some x)
    | none ↦ again backoff (retry_loop left (attempt + 1) (int64 (backoff *ℤ pos 2)) (fn s))
  ]

  unfoldable pub with_retry : ℤ → S → Retried S
  unfolding retry_loop
  with_retry backoff s = retry_loop max_retries 0 backoff (fn s)
