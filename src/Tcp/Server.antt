-- ===== src/Tcp/Server.antt =====
-- tcp_server.go: TCPServer, from a decoded message to the responses that are sent.
--
-- `Backend` is what the server calls: the runtime's Exec, Query, Stats and Metrics over a state
-- `S`, and json.Marshal for each kind of payload. A response whose encoding or writing fails is
-- only logged, so a handler returns the responses that it hands to sendResponse.
use Prim.Native.String.{◌++◌}
use fluxor_db.Base.{
  ℕ, String, Bool, true, false, ◌&&◌, not, Option, none, some, List, [], ◌∷◌, append, str_eq,
  if◌then◌else◌,
}
use fluxor_db.Base.Decimal.{decimal}
use fluxor_db.Base.Int.{pos, pos_part, is_pos, ltb_ℤ}
use fluxor_db.Errors.{Result, ok, err, ◌>>=◌, message}
use fluxor_db.Cache
use fluxor_db.Cache.{InMemoryCache}
use fluxor_db.Tcp.Protocol.{
  TcpMessage, TcpResponse, ExecResult, StatsResult, MetricsResult, new_success_response,
  new_error_response, type_exec, type_query, type_ping, type_stats, type_metrics, type_close,
}
use fluxor_db.Tcp.Rows.{Rows, QueryResult, read_rows}
use fluxor_db.Tcp.Admission.{Guard, TcpServerConfig, new_guard, allow_connection, check_rate_limit}

pub record Backend (Arg Other Data S : Type 0) : Type 0 where
  pub exec : String → List Arg → S → S × Result ExecResult
  pub query : String → List Arg → S → S × Result (Rows Other)
  pub stats : S → StatsResult
  pub metrics : S → MetricsResult
  pub marshal_status : Result Data
  pub marshal_exec : ExecResult → Result Data
  pub marshal_query : QueryResult Other → Result Data
  pub marshal_stats : StatsResult → Result Data
  pub marshal_metrics : MetricsResult → Result Data
  pub nothing : Data

pub record TcpServer (Data : Type 0) : Type 0 where
  pub guard : Guard
  pub idempotency_cache : Option (InMemoryCache (TcpResponse Data))

-- A line that a client sent: its time, its length, and what DecodeTCPMessage makes of it.
pub record Line (Arg : Type 0) : Type 0 where
  pub time : ℕ
  pub size : ℕ
  pub decoded : Result (TcpMessage Arg)

unfoldable pub new_tcp_server : {Data : Type 0} → TcpServerConfig → TcpServer Data
new_tcp_server config = record {
  guard = new_guard config;
  idempotency_cache =
      if config.enable_idempotency
      then some (Cache.new_in_memory_cache (pos 10000) (pos 300000000000))
      else none;
}

-- What a handler leaves: the server, the runtime, the responses sent.
pub record Served (Data S : Type 0) : Type 0 where
  pub server : TcpServer Data
  pub state : S
  pub sent : List (TcpResponse Data)

module _ {Arg Other Data S : Type 0} (b : Backend Arg Other Data S) where
  open b use {nothing}

  -- sendError, or sendResponse.
  abbrev pub reply : String → Result (TcpResponse Data) → TcpResponse Data
  reply id (ok resp) = resp
  reply id (err e) = new_error_response nothing id e

  abbrev pub to_store : Result (TcpResponse Data) → Option (TcpResponse Data)
  to_store (ok resp) = some resp
  to_store (err e) = none

  -- handleExec and handleQuery: the state, and the response or the error that is sent.
  unfoldable pub handle_exec : TcpMessage Arg → S → S × Result (TcpResponse Data)
  unfolding new_success_response
  handle_exec msg s =
      let (s', result) = b.exec msg.query msg.args s in
      (s', result >>= λ r. new_success_response msg.id (b.marshal_exec r))

  unfoldable pub handle_query : TcpMessage Arg → S → S × Result (TcpResponse Data)
  unfolding new_success_response
  handle_query msg s =
      let (s', result) = b.query msg.query msg.args s in
      (
        s',
        result >>= λ rows. read_rows rows >>= λ q. new_success_response msg.id (b.marshal_query q),
      )

  unfoldable pub handle_ping : TcpMessage Arg → Result (TcpResponse Data)
  unfolding new_success_response
  handle_ping msg = new_success_response msg.id b.marshal_status

  unfoldable pub handle_stats : TcpMessage Arg → S → Result (TcpResponse Data)
  unfolding new_success_response
  handle_stats msg s = new_success_response msg.id (b.marshal_stats (b.stats s))

  unfoldable pub handle_metrics : TcpMessage Arg → S → Result (TcpResponse Data)
  unfolding new_success_response
  handle_metrics msg s = new_success_response msg.id (b.marshal_metrics (b.metrics s))

  checked :
      TcpServer Data
      → InMemoryCache (TcpResponse Data) × Option (TcpResponse Data)
      → TcpServer Data × Option (TcpResponse Data)
  checked srv (c, found) = (record srv { idempotency_cache = some c }, found)

  -- checkIdempotency; a read moves the entry in the cache.
  unfoldable pub check_idempotency :
      ℕ → TcpMessage Arg → TcpServer Data → TcpServer Data × Option (TcpResponse Data)
  unfolding checked
  check_idempotency now msg srv = elim srv.idempotency_cache [
    | none ↦ (srv, none)
    | some c ↦
        if str_eq msg.idempotency_key ""
        then (srv, none)
        else checked srv (Cache.get now msg.idempotency_key c)
  ]

  -- storeIdempotency
  unfoldable pub store_idempotency :
      ℕ → TcpMessage Arg → Option (TcpResponse Data) → TcpServer Data → TcpServer Data
  store_idempotency now msg none srv = srv
  store_idempotency now msg (some resp) srv = elim srv.idempotency_cache [
    | none ↦ srv
    | some c ↦ if str_eq msg.idempotency_key "" then srv else record srv {
      idempotency_cache = some (Cache.set now msg.idempotency_key resp (pos 300000000000) c);
    }
  ]

  abbrev pub uses_idempotency : TcpMessage Arg → TcpServer Data → Bool
  uses_idempotency msg srv =
      srv.guard.config.enable_idempotency && not (str_eq msg.idempotency_key "")

  -- The answer of Exec and Query is stored under the key, if there is one.
  finish : ℕ → TcpMessage Arg → TcpServer Data → S × Result (TcpResponse Data) → Served Data S
  finish now msg srv (s, r) = record {
    server = if uses_idempotency msg srv then store_idempotency now msg (to_store r) srv else srv;
    state = s;
    sent = reply msg.id r ∷ [];
  }

  abbrev only : TcpServer Data → S → TcpResponse Data → Served Data S
  only srv s resp = record { server = srv; state = s; sent = resp ∷ [] }

  -- The switch on the type.
  unfoldable pub dispatch : ℕ → TcpMessage Arg → TcpServer Data → S → Served Data S
  unfolding finish
  dispatch now msg srv s =
      if str_eq msg.msg_type type_ping
      then only srv s (reply msg.id (handle_ping msg))
      else if str_eq msg.msg_type type_exec
      then finish now msg srv (handle_exec msg s)
      else if str_eq msg.msg_type type_query
      then finish now msg srv (handle_query msg s)
      else if str_eq msg.msg_type type_stats
      then only srv s (reply msg.id (handle_stats msg s))
      else if str_eq msg.msg_type type_metrics
      then only srv s (reply msg.id (handle_metrics msg s))
      else only srv s
          (new_error_response nothing msg.id (message ("unknown message type: " ++ msg.msg_type)))

  replayed : ℕ → TcpMessage Arg → S → TcpServer Data × Option (TcpResponse Data) → Served Data S
  replayed now msg s (srv, some resp) = only srv s resp
  replayed now msg s (srv, none) = dispatch now msg srv s

  unfoldable pub after_limits : ℕ → TcpMessage Arg → TcpServer Data → S → Served Data S
  unfolding replayed
  after_limits now msg srv s =
      if uses_idempotency msg srv
      then replayed now msg s (check_idempotency now msg srv)
      else dispatch now msg srv s

  limited : ℕ → TcpMessage Arg → TcpServer Data → S → Guard × Bool → Served Data S
  limited now msg srv s (g, true) = after_limits now msg (record srv { guard = g }) s
  limited now msg srv s (g, false) =
      only (record srv { guard = g }) s
        (new_error_response nothing msg.id
          (message ("rate limit exceeded for IP: " ++ msg.client_ip)))

  -- handleMessage; the message carries the client's address. `now` is the time of every clock that
  -- is read on the way.
  unfoldable pub handle_message : ℕ → TcpMessage Arg → TcpServer Data → S → Served Data S
  unfolding limited
  handle_message now msg srv s =
      let config = srv.guard.config in
      if config.enable_ddos_protection
        && is_pos config.max_request_size
        && ltb_ℤ config.max_request_size msg.request_size
      then only srv s (
          new_error_response nothing msg.id
            (message ("request too large: " ++ decimal (pos_part msg.request_size) ++ " bytes")))
      else if config.enable_ddos_protection
      then limited now msg srv s (check_rate_limit now msg.client_ip srv.guard)
      else after_limits now msg srv s

  -- handleClient sets the size of the line and the address of the client on every message.
  abbrev pub tracked : String → Line Arg → TcpMessage Arg → TcpMessage Arg
  tracked ip line msg = record msg { request_size = pos line.size; client_ip = ip }

  -- handleClient: what the connection brings, line by line; a line that is no message is answered
  -- with the decoder's error. A CLOSE message ends the loop, after its answer.
  unfoldable pub serve : String → List (Line Arg) → TcpServer Data → S → Served Data S
  serve ip [] srv s = record { server = srv; state = s; sent = [] }
  serve ip (line ∷ lines) srv s =
      let after = λ (h : Served Data S).
        let rest = serve ip lines h.server h.state in
        record rest { sent = append h.sent rest.sent } in
      elim line.decoded [
        | err e ↦ after (only srv s (new_error_response nothing "" e))
        | ok msg ↦
            let h = handle_message line.time (tracked ip line msg) srv s in
            if str_eq msg.msg_type type_close then h else after h
      ]

  -- The connection is checked first.
  admitted : String → List (Line Arg) → TcpServer Data → S → Guard × Bool → Served Data S
  unfolding serve
  admitted ip lines srv s (g, false) = record {
    server = record srv { guard = g };
    state = s;
    sent = [];
  }
  admitted ip lines srv s (g, true) = serve ip lines (record srv { guard = g }) s

  unfoldable pub handle_client : String → List (Line Arg) → TcpServer Data → S → Served Data S
  unfolding admitted
  handle_client ip lines srv s =
      if srv.guard.config.enable_ddos_protection
      then admitted ip lines srv s (allow_connection ip srv.guard)
      else serve ip lines srv s
