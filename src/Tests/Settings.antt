-- ===== src/Tests/Settings.antt =====
-- Instances of the theorems about config.go, utils.go and dbruntime.go.
use fluxor_db.Base
use fluxor_db.Base.{
  ℕ, ◌+◌, ◌≤◌, ◌≡◌, ◌≢◌, eq_iff, ◌↔◌, refl, String, Bool, true, false, List, [], ◌∷◌, Option, none,
  some, arith, length, str_eq, if◌then◌else◌,
}
use fluxor_db.Base.Int.{ℤ, pos, ◌≤ℤ◌, ◌<ℤ◌}
use fluxor_db.Errors.{Err, Result, ok, external, deadline_exceeded, message}
use fluxor_db.Config
use fluxor_db.Config.{Environment, RuntimeConfig}
use fluxor_db.Config.Queries
use fluxor_db.Config.Queries.{Call}
use fluxor_db.Gate
use fluxor_db.Gate.Limiter.{Wake}
use fluxor_db.Db
use fluxor_db.Db.{AdvancedDb, Moment}
use fluxor_db.Utils
use fluxor_db.Utils.{Driver, Outcome}
use fluxor_db.Utils.Outcomes
use fluxor_db.Cache
use fluxor_db.Cache.{InMemoryCache}
use fluxor_db.Runtime
use fluxor_db.Runtime.{CacheValue}
use fluxor_db.Runtime.Cached
use fluxor_db.Tcp.Rows
use fluxor_db.Tcp.Rows.{Rows, QueryResult, Cell}

-- An environment that asks for Oracle and leaves the rest to the defaults.
abbrev pub environment : Environment
environment = record {
  getenv = λ key. if str_eq key "DB_TYPE" then "oracle" else "";
  atoi = λ text. none;
  parse_int = λ text. none;
  parse_bool = λ text. none;
  parse_duration = λ text. none;
}

abbrev pub oracle_config : RuntimeConfig
oracle_config = Config.default_config environment

-- The default configuration of an Oracle database has no DSN.
validate_oracle : Config.validate oracle_config ≡ some (message "DSN is required")
unfolding Config.validate Config.default_config
validate_oracle = refl

abbrev calls : List Call
calls = Call.database_type "mysql" ∷ Call.dsn "db" ∷ Call.database_type "oracle" ∷ []

run_default-fits_example : Queries.fits (Queries.run calls oracle_config) ≡ true
run_default-fits_example = Queries.run_default-fits environment calls refl

-- A database whose commits fail.
abbrev driver : Driver ℕ
driver = record {
  begin_tx = λ n. (n, ok tt);
  commit_tx = λ n. (n, some deadline_exceeded);
  rollback_tx = λ n. (n, none);
}

abbrev pub moment : Moment
moment = record {
  now = 1;
  later = 2;
  wake = Wake.slot;
  others = λ g. g;
  duration = pos 5;
  interrupted = λ attempt. none;
}

abbrev work : AdvancedDb ℕ → ℕ → AdvancedDb ℕ × ℕ × Outcome
work adb n = (adb, n + 1, Outcome.returned none)

abbrev database : AdvancedDb ℕ
database = Db.new_advanced_db (Gate.new_connection_gate 0 none) none

abbrev busy : AdvancedDb ℕ
busy = record database {
  gate = record (database.gate) {
    limiter = record (database.gate.limiter) { current_connections = pos 1 };
    rate = record (database.gate.rate) { tokens = pos 999 };
  };
}

-- A commit that fails after the function returned no error: Transaction returns none either.
commit_lost :
    Utils.transaction (λ e r. pos 0) (λ b. b) driver moment work database 7
    ≡ some (record busy { gate = Gate.record_failure 2 busy.gate }, 8, Outcome.returned none)
unfolding Db.begin Gate.execute_with_gate Gate.allow fluxor_db.Gate.Breaker.allow Db.new_advanced_db
    Gate.new_connection_gate fluxor_db.Gate.Breaker.new_circuit_breaker fluxor_db.Gate.Rate.allow
    fluxor_db.Gate.Rate.new_rate_limiter Gate.acquire_slot fluxor_db.Gate.Limiter.acquire_now
    fluxor_db.Gate.Limiter.new_connection_limiter Gate.record_success
    fluxor_db.Gate.Breaker.record_success fluxor_db.Base.Int.int64 fluxor_db.Base.Int.◌-ℤ◌
    fluxor_db.Base.Int.◌+ℤ◌ Utils.transaction Utils.deferred Db.commit Gate.record_failure
commit_lost = refl

abbrev stubborn : ℕ → ℕ × Option Err
stubborn n = (n + 1, some (external 1 "down"))

with_retry-waits_example :
    let r = Utils.with_retry 2 (λ attempt. none) stubborn (pos 10) 0 in
    (r.calls ≡ length r.waited + 1)
    × (r.calls ≤ 3)
    × (r.waited ≡ Outcomes.doublings (length r.waited) (pos 10))
with_retry-waits_example = Outcomes.with_retry-waits 2 (λ attempt. none) stubborn (pos 10) 0

-- A query of one row with one column of bytes.
abbrev one_row : Rows ℕ
one_row = record {
  columns = ok ("name" ∷ []);
  scans = ok (Cell.bytes "Ada" ∷ []) ∷ [];
  final = none;
}

abbrev read : QueryResult ℕ
read = record { columns = "name" ∷ []; rows = (Cell.text "Ada" ∷ []) ∷ [] }

abbrev select : ℕ → ℕ × Result (Rows ℕ)
select n = (n + 1, ok one_row)

abbrev empty : InMemoryCache (CacheValue ℕ)
empty = record {
  ll = [];
  capacity = 10;
  default_ttl = pos 50;
  hits = 0;
  misses = 0;
  evictions = 0;
  expired_count = 0;
}

named : ◌≢◌ {A = String} "key" ""
named e = let t : false ≡ true = (eq_iff "key" "").1 e in cc

query_cached_twice_example :
    let first = Runtime.query_cached select 3 5 "key" (pos 0) (some empty) 7 in
    let second = Runtime.query_cached select 40 41 "key" (pos 0) first.cache 8 in
    (first.result ≡ ok (read, false)) × (second.result ≡ ok (read, true)) × (second.state ≡ 8)
unfolding Cache.get Cache.find Cache.effective_expire Cache.is_past Rows.read_rows
query_cached_twice_example =
    Cached.query_cached_twice select 3 5 40 41 "key" (pos 0) (pos 0) empty 7 8 8 one_row read named
      refl refl refl refl
