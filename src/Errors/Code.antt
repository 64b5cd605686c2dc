-- ===== src/Errors/Code.antt =====
-- errors.go, the error codes.
use fluxor_db.Base.{String}

abbrev pub connection_failed : String
connection_failed = "CONNECTION_FAILED"

abbrev pub query_failed : String
query_failed = "QUERY_FAILED"

abbrev pub transaction_failed : String
transaction_failed = "TRANSACTION_FAILED"

abbrev pub circuit_breaker_open : String
circuit_breaker_open = "CIRCUIT_BREAKER_OPEN"

abbrev pub rate_limit_exceeded : String
rate_limit_exceeded = "RATE_LIMIT_EXCEEDED"

abbrev pub connection_leak : String
connection_leak = "CONNECTION_LEAK"

abbrev pub validation_failed : String
validation_failed = "VALIDATION_FAILED"

abbrev pub timeout : String
timeout = "TIMEOUT"

abbrev pub retry_exhausted : String
retry_exhausted = "RETRY_EXHAUSTED"
