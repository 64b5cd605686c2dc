-- ===== src/Db.antt =====
-- db.go: AdvancedDB, which runs each statement behind the gate, with retries and metrics.
--
-- The database (sql.DB, the drivers) is a state `S` with a function for each call that it answers.
-- A record `Moment` holds what one call meets of its surroundings: the times that it reads, the
-- event that ends a wait for a slot, what other goroutines do to the gate meanwhile, the duration
-- that is measured.
pub mod Config
pub mod Metrics
pub mod Statements
pub mod Retry
pub mod Outcomes
use fluxor_db.Base.{ℕ, String, Option, none, some, List, if◌then◌else◌}
use fluxor_db.Base.Int.{ℤ, pos, is_pos}
use fluxor_db.Errors.{Err, Result, ok, err}
use fluxor_db.Gate
use fluxor_db.Gate.{ConnectionGate}
use fluxor_db.Gate.Limiter.{Wake}
use Config.{DbAdvancedConfig}
use Metrics.{DbMetrics}
use Statements.{PreparedStatementCache}
use Retry.{RetryPolicy}

pub record AdvancedDb (Stmt : Type 0) : Type 0 where
  pub gate : ConnectionGate
  pub stmt_cache : PreparedStatementCache Stmt
  pub metrics : DbMetrics
  pub retry_policy : RetryPolicy
  pub query_timeout : ℤ

pub record Moment : Type 0 where
  pub now : ℕ
  pub later : ℕ
  pub wake : Wake
  pub others : ConnectionGate → ConnectionGate
  pub duration : ℤ
  pub interrupted : ℕ → Option Err  -- ctx.Done() during the wait before an attempt

unfoldable pub new_advanced_db :
    {Stmt : Type 0} → ConnectionGate → Option DbAdvancedConfig → AdvancedDb Stmt
new_advanced_db gate none = record {
  gate = gate;
  stmt_cache = Statements.new_prepared_statement_cache none;
  metrics = Metrics.new_db_metrics none;
  retry_policy = Retry.new_retry_policy none;
  query_timeout = pos 30000000000;
}
new_advanced_db gate (some c) = record {
  gate = gate;
  stmt_cache = Statements.new_prepared_statement_cache (some c);
  metrics = Metrics.new_db_metrics (some c);
  retry_policy = Retry.new_retry_policy (some c);
  query_timeout = if is_pos c.query_timeout then c.query_timeout else pos 30000000000;
}

-- `added` and `scale` are the floating-point products of the rate limiter and of the back-off.
module _ (added : ℤ → ℤ → ℤ) (scale : ℤ → ℤ) {Stmt : Type 0} {S A : Type 0} where
  -- What is left when the gate has answered; the deferred RecordQuery passes a nil error.
  answered :
      Moment
      → AdvancedDb Stmt
      → Option (ConnectionGate × S × Result A)
      → Option (AdvancedDb Stmt × S × Result A)
  answered m adb none = none
  answered m adb (some (gate, s, r)) =
      some (
        record adb { gate = gate; metrics = Metrics.record_query m.duration none adb.metrics },
        s,
        r,
      )

  -- Exec and Query differ in the call of the database and in the word of their last error.
  guarded :
      String
      → (S → S × Result A)
      → Moment
      → AdvancedDb Stmt
      → S
      → Option (AdvancedDb Stmt × S × Result A)
  unfolding answered
  guarded word call m adb s = answered m adb (
      Gate.execute_with_gate added m.now m.later m.wake m.others
        (λ t.
          let r = Retry.retry scale word adb.retry_policy m.interrupted call t in
          (r.state, r.result))
        adb.gate s)

  unfoldable pub exec :
      (S → S × Result A) → Moment → AdvancedDb Stmt → S → Option (AdvancedDb Stmt × S × Result A)
  unfolding guarded
  exec = guarded "exec"

  unfoldable pub query :
      (S → S × Result A) → Moment → AdvancedDb Stmt → S → Option (AdvancedDb Stmt × S × Result A)
  unfolding guarded
  query = guarded "query"

  -- QueryRow goes past the gate.
  unfoldable pub query_row : (S → S × A) → Moment → AdvancedDb Stmt → S → AdvancedDb Stmt × S × A
  query_row call m adb s =
      let (s', row) = call s in
      (record adb { metrics = Metrics.record_query m.duration none adb.metrics }, s', row)

  -- Begin: the gate, and no metrics.
  begun :
      AdvancedDb Stmt
      → Option (ConnectionGate × S × Result A)
      → Option (AdvancedDb Stmt × S × Result A)
  begun adb none = none
  begun adb (some (gate, s, r)) = some (record adb { gate = gate }, s, r)

  unfoldable pub begin :
      (S → S × Result A) → Moment → AdvancedDb Stmt → S → Option (AdvancedDb Stmt × S × Result A)
  unfolding begun
  begin begin_tx m adb s =
      begun adb (Gate.execute_with_gate added m.now m.later m.wake m.others begin_tx adb.gate s)

module _ {Stmt S : Type 0} where
  prepared : String → ℕ → AdvancedDb Stmt → S × Result Stmt → AdvancedDb Stmt × S × Result Stmt
  prepared query pick adb (s, err e) = (adb, s, err e)
  prepared query pick adb (s, ok stmt) =
      (record adb { stmt_cache = Statements.put pick query stmt adb.stmt_cache }, s, ok stmt)

  prepare_with :
      Option Stmt
      → (S → S × Result Stmt)
      → String
      → ℕ
      → AdvancedDb Stmt
      → S
      → AdvancedDb Stmt × S × Result Stmt
  unfolding prepared
  prepare_with (some stmt) call query pick adb s = (adb, s, ok stmt)
  prepare_with none call query pick adb s = prepared query pick adb (call s)

  -- `call` is PrepareContext; `pick` is the entry that the loop over the map meets first.
  unfoldable pub prepare :
      (S → S × Result Stmt) → String → ℕ → AdvancedDb Stmt → S → AdvancedDb Stmt × S × Result Stmt
  unfolding prepare_with
  prepare call query pick adb s =
      prepare_with (Statements.get query adb.stmt_cache) call query pick adb s

-- AdvancedTx: what Commit, Rollback and Exec do to the gate and the metrics, given what the
-- database's transaction answered.
unfoldable pub commit : ℕ → Option Err → ConnectionGate → ConnectionGate
commit now none gate = Gate.record_success gate
commit now (some e) gate = Gate.record_failure now gate

unfoldable pub rollback : ℕ → Option Err → ConnectionGate → ConnectionGate
rollback now none gate = gate
rollback now (some e) gate = Gate.record_failure now gate

unfoldable pub tx_exec : ℤ → Option Err → DbMetrics → DbMetrics
tx_exec duration e m = Metrics.record_query duration e m

unfoldable pub tx_query : ℤ → Option Err → DbMetrics → DbMetrics
tx_query duration e m = Metrics.record_query duration none m
