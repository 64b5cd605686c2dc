-- ===== src/Tests/Databases.antt =====
-- Instances of the theorems about db.go.
use fluxor_db.Base
use fluxor_db.Base.{
  ℕ, ◌+◌, ◌≤◌, ◌<◌, ◌≡◌, ◌≢◌, refl, String, Bool, true, false, List, [], ◌∷◌, Option, none, some,
  arith, eq_iff, if◌then◌else◌, length, All,
}
use fluxor_db.Base.Int.{ℤ, pos, ◌≤ℤ◌}
use fluxor_db.Errors.{Err, Result, ok, err, external, deadline_exceeded, is_same}
use fluxor_db.Db
use fluxor_db.Db.{AdvancedDb, Moment}
use fluxor_db.Db.Metrics
use fluxor_db.Db.Metrics.{DbMetrics}
use fluxor_db.Db.Retry
use fluxor_db.Db.Retry.{RetryPolicy}
use fluxor_db.Db.Statements
use fluxor_db.Db.Statements.{PreparedStatementCache}
use fluxor_db.Db.Outcomes
use fluxor_db.Gate
use fluxor_db.Gate.Limiter.{Wake}

abbrev history : List (ℤ × Option Err)
history = (pos 5, none) ∷ (pos 2000000000, some deadline_exceeded) ∷ (pos 7, none) ∷ []

abbrev policy : RetryPolicy
policy = record {
  max_retries = 2;
  initial_backoff = pos 100;
  max_backoff = pos 150;
  retryable_errors = [];
}

-- The product with 2.0, at the one value that comes up, and a database that times out twice.
abbrev doubled : ℤ → ℤ
doubled x = pos 200

abbrev flaky : ℕ → ℕ × Result ℕ
flaky n = if Base.ltb n 2 then (n + 1, err deadline_exceeded) else (n + 1, ok n)

abbrev broken : ℕ → ℕ × Result ℕ
broken n = (n + 1, err (external 1 "syntax error"))

abbrev calm : ℕ → Option Err
calm attempt = none

retry_bounds_example :
    let r = Retry.retry doubled "exec" policy calm flaky 0 in
    (1 ≤ r.calls)
    × (r.calls ≤ 3)
    × (length r.waited + 1 ≡ r.calls)
    × All (λ x. x ≤ℤ pos 150) r.waited
retry_bounds_example = Outcomes.retry_bounds doubled "exec" policy calm flaky 0 (omega arith)

retry_run :
    Retry.retry doubled "exec" policy calm flaky 0
    ≡ record { state = 3; result = ok 2; waited = pos 100 ∷ pos 150 ∷ []; calls = 3 }
unfolding Retry.retry Retry.retry_loop Retry.should_retry Retry.next_backoff is_same
retry_run = refl

abbrev statements : PreparedStatementCache ℕ
statements = record { cache = ("q1", 1) ∷ ("q2", 2) ∷ []; max_size = 2 }

-- A full cache that already has the query loses another one for nothing.
put_loses : Statements.get "q2" (Statements.put 1 "q1" 7 statements) ≡ none
unfolding Statements.get Statements.put Base.Dict.lookup
put_loses = refl

abbrev moment : Moment
moment = record {
  now = 1;
  later = 2;
  wake = Wake.slot;
  others = λ g. g;
  duration = pos 5;
  interrupted = calm;
}

abbrev adb : AdvancedDb ℕ
adb = record {
  gate = Gate.new_connection_gate 0 none;
  stmt_cache = statements;
  metrics = Metrics.new_db_metrics none;
  retry_policy = policy;
  query_timeout = pos 30000000000;
}

exec-CountedAsSuccess_example :
    Outcomes.CountedAsSuccess adb.metrics (Db.exec (λ e r. pos 0) doubled broken moment adb 0)
    × Outcomes.CountedAsSuccess adb.metrics (Db.query (λ e r. pos 0) doubled broken moment adb 0)
exec-CountedAsSuccess_example =
    Outcomes.exec-CountedAsSuccess (λ e r. pos 0) doubled broken moment adb 0
