-- ===== src/Tcp/Protocol.antt =====
-- tcp_protocol.go. The JSON text of a message is encoding/json's; here a message is its value, and
-- a payload (json.RawMessage) is a type `Data` with the functions that make one.
use fluxor_db.Base.{String, Bool, true, false, List}
use fluxor_db.Base.Int.{ℤ}
use fluxor_db.Errors.{Err, Result, ok, ◌>>=◌, error_text}

-- The message types.
abbrev pub type_exec : String
type_exec = "EXEC"

abbrev pub type_query : String
type_query = "QUERY"

abbrev pub type_ping : String
type_ping = "PING"

abbrev pub type_stats : String
type_stats = "STATS"

abbrev pub type_metrics : String
type_metrics = "METRICS"

abbrev pub type_close : String
type_close = "CLOSE"

pub record TcpMessage (Arg : Type 0) : Type 0 where
  pub msg_type : String
  pub id : String
  pub query : String
  pub args : List Arg
  pub idempotency_key : String
  pub client_ip : String
  pub request_size : ℤ

pub record TcpResponse (Data : Type 0) : Type 0 where
  pub id : String
  pub success : Bool
  pub error : String
  pub payload : Data

pub record ExecResult : Type 0 where
  pub rows_affected : ℤ
  pub last_insert_id : ℤ

pub record StatsResult : Type 0 where
  pub max_open_connections : ℤ
  pub open_connections : ℤ
  pub in_use : ℤ
  pub idle : ℤ
  pub wait_count : ℤ
  pub wait_duration : ℤ
  pub max_idle_closed : ℤ
  pub max_idle_time_closed : ℤ
  pub max_lifetime_closed : ℤ

pub record MetricsResult : Type 0 where
  pub total_queries : ℤ
  pub successful_queries : ℤ
  pub failed_queries : ℤ
  pub slow_queries : ℤ
  pub average_query_time : ℤ

-- `payload` is what json.Marshal made of the data.
unfoldable pub new_success_response :
    {Data : Type 0} → String → Result Data → Result (TcpResponse Data)
new_success_response id payload = do
  p ← payload
  ok (record { id = id; success = true; error = ""; payload = p })

-- `nothing` is the nil payload.
unfoldable pub new_error_response : {Data : Type 0} → Data → String → Err → TcpResponse Data
new_error_response nothing id e = record {
  id = id;
  success = false;
  error = error_text e;
  payload = nothing;
}
