-- ===== src/Config/Queries.antt =====
-- config.go: what Validate accepts, and the validation query that the builder leaves.
use fluxor_db.Base.{
  ◌≡◌, ◌↔◌, String, Bool, true, false, none, List, [], ◌∷◌, str_eq, eq_iff, arith, refl, Bool-cases,
  inl, inr, not, if◌then◌else◌, ◌||◌,
}
use fluxor_db.Base.Int.{ℤ, pos, ◌≤ℤ◌, ◌<ℤ◌}
use fluxor_db.Config.{
  RuntimeConfig, Environment, validate, oracle, postgresql, mysql, sqlite, plain_query, dual_query,
  with_database_type, with_dsn, with_connection_pool, with_connection_lifetime, with_leak_detection,
  with_circuit_breaker, with_rate_limit, with_backpressure, with_in_memory_mode,
  with_aggressive_caching, with_query_settings, with_retry_policy, default_config, get_env,
}

-- Validate accepts a configuration exactly when its DSN is not empty, the number of idle
-- connections is positive, and it is at most the number of open connections.
pub validate_accepts :
    (c : RuntimeConfig)
    → (validate c ≡ none) ↔ (
        (str_eq c.dsn "" ≡ false)
        × (pos 0 <ℤ c.max_idle_conns)
        × (c.max_idle_conns ≤ℤ c.max_open_conns))
unfolding validate
validate_accepts c = (λ h. ground arith, λ h. ground arith)

-- The validation query is not the one of another kind of database. A type that is none of the four
-- fits every query.
abbrev pub fits_at : String → String → Bool
fits_at t query =
    if str_eq t oracle
    then not (str_eq query plain_query)
    else if str_eq t postgresql || (str_eq t mysql || str_eq t sqlite)
    then not (str_eq query dual_query)
    else true

abbrev pub fits : RuntimeConfig → Bool
fits c = fits_at c.database_type c.validation_query

-- A call of the builder.
pub data Call : Type 0 where
  database_type dsn : String → Call
  connection_pool connection_lifetime aggressive_caching retry_policy : ℤ → ℤ → Call
  leak_detection : Bool → ℤ → Call
  circuit_breaker query_settings : ℤ → ℤ → ℤ → Call
  rate_limit : ℤ → Call
  backpressure : String → ℤ → Call

unfoldable pub step : RuntimeConfig → Call → RuntimeConfig
step c (database_type t) = with_database_type t c
step c (dsn d) = with_dsn d c
step c (connection_pool a b) = with_connection_pool a b c
step c (connection_lifetime a b) = with_connection_lifetime a b c
step c (aggressive_caching a b) = with_aggressive_caching a b c
step c (retry_policy a b) = with_retry_policy a b c
step c (leak_detection a b) = with_leak_detection a b c
step c (circuit_breaker x y z) = with_circuit_breaker x y z c
step c (query_settings x y z) = with_query_settings x y z c
step c (rate_limit a) = with_rate_limit a c
step c (backpressure a b) = with_backpressure a b c

unfoldable pub run : List Call → RuntimeConfig → RuntimeConfig
run [] c = c
run (call ∷ calls) c = run calls (step c call)

oracle-fits : (c : RuntimeConfig) → fits (with_database_type oracle c) ≡ true
unfolding with_database_type
oracle-fits c = elim (Bool-cases (str_eq c.validation_query plain_query)) [
  | inl e ↦ rw e refl
  | inr e ↦ rw (e, e) refl
]

other-fits :
    (t : String) (c : RuntimeConfig)
    → str_eq t oracle ≡ false
    → fits (with_database_type t c) ≡ true
unfolding with_database_type
other-fits t c o = elim (Bool-cases (str_eq t postgresql || (str_eq t mysql || str_eq t sqlite))) [
  | inl k ↦ elim (Bool-cases (str_eq c.validation_query dual_query)) [
    | inl e ↦ rw (k, e, o, k) refl
    | inr e ↦ rw (k, e, o, k, e) refl
  ]
  | inr k ↦ rw (k, o, o, k) refl
]

with_database_type-fits : (t : String) (c : RuntimeConfig) → fits (with_database_type t c) ≡ true
with_database_type-fits t c = elim (Bool-cases (str_eq t oracle)) [
  | inl o ↦ rw ((eq_iff t oracle).0 o) (oracle-fits c)
  | inr o ↦ other-fits t c o
]

step-fits : (c : RuntimeConfig) (call : Call) → fits c ≡ true → fits (step c call) ≡ true
unfolding step with_dsn with_connection_pool with_connection_lifetime with_leak_detection
    with_circuit_breaker with_rate_limit with_backpressure with_aggressive_caching
    with_query_settings with_retry_policy
step-fits c (database_type t) h = with_database_type-fits t c
step-fits c (dsn _) h = h
step-fits c (connection_pool _ _) h = h
step-fits c (connection_lifetime _ _) h = h
step-fits c (aggressive_caching _ _) h = h
step-fits c (retry_policy _ _) h = h
step-fits c (leak_detection _ _) h = h
step-fits c (circuit_breaker _ _ _) h = h
step-fits c (query_settings _ _ _) h = h
step-fits c (rate_limit _) h = h
step-fits c (backpressure _ _) h = h

run-fits : (calls : List Call) (c : RuntimeConfig) → fits c ≡ true → fits (run calls c) ≡ true
unfolding run
run-fits [] c h = h
run-fits (call ∷ calls) c h = run-fits calls (step c call) (step-fits c call h)

-- The query that DefaultConfig chooses for a type.
chosen-fits : (t : String) → fits_at t (if str_eq t oracle then dual_query else plain_query) ≡ true
chosen-fits t = elim (Bool-cases (str_eq t oracle)) [
  | inl o ↦ rw ((eq_iff t oracle).0 o) refl
  | inr o ↦ elim (Bool-cases (str_eq t postgresql || (str_eq t mysql || str_eq t sqlite))) [
    | inl k ↦ rw (o, k) refl
    | inr k ↦ rw (o, k) refl
  ]
]

default_config-fits :
    (env : Environment)
    → str_eq (env.getenv "DB_VALIDATION_QUERY") "" ≡ true
    → fits (default_config env) ≡ true
unfolding default_config
default_config-fits env unset = rw unset (chosen-fits (get_env env "DB_TYPE" sqlite))

-- When the environment names no validation query, the default configuration and any calls of the
-- builder's methods but WithInMemoryMode leave a validation query that is not the other kind's where
-- the database type is one of the four that the code names: not the plain SELECT 1 for Oracle, and
-- not SELECT 1 FROM DUAL for PostgreSQL, MySQL and SQLite. Of other types this says nothing.
pub run_default-fits :
    (env : Environment) (calls : List Call)
    → str_eq (env.getenv "DB_VALIDATION_QUERY") "" ≡ true
    → fits (run calls (default_config env)) ≡ true
run_default-fits env calls unset =
    run-fits calls (default_config env) (default_config-fits env unset)

-- On a configuration for Oracle's validation query without a DSN, WithInMemoryMode(true) leaves a
-- validation query that does not fit the database type which it sets, SQLite.
pub in_memory_misfit :
    (c : RuntimeConfig)
    → c.dsn ≡ ""
    → c.validation_query ≡ dual_query
    → fits (with_in_memory_mode true c) ≡ false
unfolding with_in_memory_mode
in_memory_misfit c d q = rw (d, q) refl
