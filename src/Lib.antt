-- ===== src/Lib.antt =====
-- A model of fluxor-db, a database runtime in Go, with the theorems about it: the configuration, the
-- connection gate, the connection manager and its monitor, the in-memory cache, the advanced database
-- layer, the runtime, the TCP server and client, and the storages of blobs with their command.
--
-- How the program is put together. A DBRuntime (dbruntime.go) opens a database/sql handle through a
-- ConnectionManager (open.go), which tracks connections and looks for leaks, and wraps it in an
-- AdvancedDB (db.go), which sends every statement through a ConnectionGate (gate.go: circuit
-- breaker, rate limiter, connection limiter), retries it, and records it in its metrics. Results may
-- be kept in an InMemoryCache (cache.go). A Monitor (monitor.go) reads the runtime's diagnostics and
-- calls back. A TCPServer (tcp_server.go) offers the runtime to clients (tcp_client.go) as JSON
-- messages, one on a line (tcp_protocol.go), with limits on addresses, and with a cache of responses
-- by idempotency key. Blobs are kept in a table or in files (blob.go), and by a command of their own
-- (cmd/blobonly/main.go). errors.go classifies errors and recovers from them, utils.go has helpers.
--
-- Which file models which part (Go files lie at the repository's root):
--   Base, Base/*      lists, tests, int64 and uint64 arithmetic, decimal numerals, association
--                     lists, and the functions of the package strings on bytes
--   Errors, Errors/*  errors.go without ErrorRecovery, and the error values of gate.go and db.go
--   Gate/Config       gate.go, GateConfig
--   Gate/Breaker      gate.go, CircuitBreaker; Opening and Transitions prove
--   Gate/Rate         gate.go, RateLimiter
--   Gate/Limiter      gate.go, ConnectionLimiter; Bounds proves
--   Gate              gate.go, ConnectionGate and ExecuteWithGate; Gate/Slots proves
--   Cache             cache.go on one list of entries; Entries, Invariant, Reads and Near
--                     prove
--   Cache/Linked      cache.go with its map and its linked list; Elements, Sound, Refines, Writes,
--                     Purged and Runs prove
--   Db/Config, Db/Metrics, Db/Statements, Db/Retry, Db
--                     db.go, one file for each type; Db/Outcomes proves
--   Manager/Validator, Manager
--                     open.go; Later, Closing, Defaults, Tracking and Validated prove
--   Monitor           monitor.go; Events and Restart prove
--   Tcp/Protocol      tcp_protocol.go, the messages and the responses
--   Tcp/Framing       tcp_protocol.go, the encoders and decoders, and the lines between the two
--                     sides; Received proves
--   Tcp/Rows          tcp_server.go, how handleQuery reads the rows
--   Tcp/Admission     tcp_server.go, allowConnection and checkRateLimit
--   Tcp/Server        tcp_server.go, from a client's line to the responses; Tcp/Limits proves
--   Tcp/Lifecycle     tcp_server.go, Start, Stop, acceptLoop and the goroutines of the clients as
--                     steps; Deadlock, Stopping and Liveness prove
--   Tcp/Client        tcp_client.go; Tcp/Client/Locks proves
--   Tcp/Replay        tcp_server.go and cache.go together; Held proves
--   Config            config.go, and RuntimeConfig of dbruntime.go; Config/Queries proves
--   Runtime           dbruntime.go, QueryCached and the cache of NewDBRuntime; Runtime/Cached proves
--   Runtime/Lifecycle dbruntime.go, NewDBRuntime, Connect, Disconnect and the calls that ask for a
--                     connection; Runtime/Connected and Runtime/Disconnected prove
--   Runtime/Recovery  errors.go, ErrorRecovery; Handled proves
--   Runtime/Diagnosed utils.go, GetDiagnostics, CheckHealth and DisconnectWithLog on a runtime;
--                     Healthy proves
--   Utils             utils.go, Transaction, WithRetry and the health that CheckHealth makes of the
--                     answers it gets; Utils/Outcomes proves
--   Utils/Executor    utils.go, Select, SelectOne and Execute; Selected proves
--   Blob, Blob/Tags   blob.go, the metadata and the text of the tags; RoundTrip proves
--   Blob/Database     blob.go, DatabaseBlobStorage; Stored proves
--   Blob/Files        blob.go, FilesystemBlobStorage; Stored, Kinds and Walked prove
--   Blob/Command      cmd/blobonly/main.go; Main is its function main; Stored and RoundTrip
--                     prove
--   Tests, Tests/*    the theorems at concrete inputs
-- A definition has the Go name in snake case; a method takes the receiver and returns it changed.
--
-- How state and time are modelled.
--   * A clock is an argument: nanoseconds, a natural number. A duration is an integer.
--   * An int64 or a uint64 that the code adds to is wrapped (Base/Int).
--   * A mutex that a method takes from its first line to its last makes it one step. Where the code
--     reads or waits outside its lock, the model cuts the method there: `allow_after_load` and
--     `success_after_load` take the state that was read before the lock; `acquire_now` and
--     `acquire_wake` stand on the two sides of the blocking select, with the other goroutines' work
--     between them as a function, and the select's outcome as a `Wake`. A select that never becomes
--     ready is `blocked`, and a caller of it returns `none`. The limiter's channel operations and the
--     changes of its count are steps of their own, and Gate/Limiter/Bounds interleaves them; the
--     gate puts the two of one call together. `slept` is what the other goroutines do
--     while HandleError sleeps.
--   * The two locks of the client are part of its state, and a lock that cannot be had is `none`.
--     Where the server's goroutines wait for each other, they are a relation of steps.
--   * A panic is a value: `none`, `panicked`, or `nil_dereference` for a runtime without its
--     AdvancedDB.
--   * The other models read the cache as one list of entries, the most recently used first.
--     Cache/Linked has the map and the linked list, whose elements are numbers.
--   * A Go map is an association list; which entry an iteration gives first is an argument.
--   * The retry loop runs on the number of attempts that are left, MaxRetries at first, so it needs
--     no other bound. So does WithRetry, whose number of retries is taken as not negative.
--   * Floating point: `added` is int64(elapsed.Seconds() * float64(rate)), and `scale` is
--     Duration(float64(backoff) * multiplier); both are parameters. The success rate of the metrics
--     is left out.
--   * A database call, database/sql's pool, the runtime behind the server, encoding/json, MD5, the
--     packages os and filepath and the network are functions that answer with a value or with an
--     error. What a theorem asks of them stands in a record: `IsFileSystem`, `IsCodec`, `IsJson`.
--   * A text whose bytes the code walks is a list of numbers; another is a string.
--
-- What is not modelled: whether a database understands the statements of blob.go and gives a row back
-- as it was sent, for which Blob/Database has the look-up of a row as a function; the text that Diagnostics prints; WithTimeout, which calls the package
-- context; log lines; flag.Parse; the examples (examples*.go and the main of dbruntime.go), which
-- print what they do; stack traces of tracked connections, which the code never sets; the field
-- Payload of a message, which the code never uses.
pub mod Base
pub mod Errors
pub mod Gate
pub mod Cache
pub mod Config
pub mod Db
pub mod Tcp
pub mod Utils
pub mod Runtime
pub mod Blob
pub mod Manager
pub mod Monitor
mod Tests
