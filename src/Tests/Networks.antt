-- ===== src/Tests/Networks.antt =====
-- Instances of the theorems about the network layer.
use Prim.Native.String.{◌++◌}
use fluxor_db.Base
use fluxor_db.Base.{
  ℕ, ◌+◌, ◌≤◌, ◌<◌, ◌≡◌, ◌≢◌, ◌⊎◌, refl, String, Bool, true, false, List, [], ◌∷◌, Option, none,
  some, arith, eq_iff, if◌then◌else◌, str_eq, ◌&&◌,
}
use fluxor_db.Base.Decimal.{decimal}
use fluxor_db.Base.Int.{pos, uint64}
use fluxor_db.Errors.{Result, ok, err, message}
use fluxor_db.Cache.{is_past}
use fluxor_db.Tcp.Protocol.{
  TcpMessage, TcpResponse, ExecResult, StatsResult, MetricsResult, type_exec,
}
use fluxor_db.Tcp.Admission
use fluxor_db.Tcp.Admission.{Guard, TcpServerConfig, contains}
use fluxor_db.Tcp.Server
use fluxor_db.Tcp.Server.{Backend, TcpServer}
use fluxor_db.Tcp.Client
use fluxor_db.Tcp.Client.{TcpClient, Network}
use fluxor_db.Tcp.Client.Locks
use fluxor_db.Tcp.Limits
use fluxor_db.Tcp.Replay

abbrev config : TcpServerConfig
config = record {
  enable_idempotency = true;
  enable_ddos_protection = true;
  max_request_size = pos 1000;
  max_connections_per_ip = pos 1;
  rate_limit_per_ip = pos 100;
  blacklisted_ips = "10.0.0.9" ∷ [];
  whitelisted_ips = [];
}

abbrev guard : Guard
guard = record { config = config; ip_connections = []; ip_rate_limits = [] }

abbrev busy : Guard
busy = record guard { ip_connections = ("10.0.0.1", 1) ∷ [] }

rate_limit_second_example :
    Admission.check_rate_limit 500 "10.0.0.1" (Admission.check_rate_limit 3 "10.0.0.1" guard).0
    ≡ ((Admission.check_rate_limit 3 "10.0.0.1" guard).0, false)
unfolding Admission.check_rate_limit Base.Dict.lookup
rate_limit_second_example =
    Limits.rate_limit_second 3 500 "10.0.0.1" guard (omega arith) refl (omega arith)

-- A runtime that counts its calls, and payloads that are texts.
abbrev no_stats : StatsResult
no_stats = record {
  max_open_connections = pos 0;
  open_connections = pos 0;
  in_use = pos 0;
  idle = pos 0;
  wait_count = pos 0;
  wait_duration = pos 0;
  max_idle_closed = pos 0;
  max_idle_time_closed = pos 0;
  max_lifetime_closed = pos 0;
}

abbrev no_metrics : MetricsResult
no_metrics = record {
  total_queries = pos 0;
  successful_queries = pos 0;
  failed_queries = pos 0;
  slow_queries = pos 0;
  average_query_time = pos 0;
}

abbrev backend : Backend ℕ ℕ String ℕ
backend = record {
  exec = λ query args n. (n + 1, ok (record { rows_affected = pos 1; last_insert_id = pos n }));
  query = λ query args n. (n + 1, err (message "no rows"));
  stats = λ n. no_stats;
  metrics = λ n. no_metrics;
  marshal_status = ok "status";
  marshal_exec = λ r. ok "exec";
  marshal_query = λ r. ok "query";
  marshal_stats = λ r. ok "stats";
  marshal_metrics = λ r. ok "metrics";
  nothing = "";
}

abbrev server : TcpServer String
server = record {
  guard = guard;
  idempotency_cache = some (record {
    ll = [];
    capacity = 10;
    default_ttl = pos 0;
    hits = 0;
    misses = 0;
    evictions = 0;
    expired_count = 0;
  });
}

abbrev insert : String → TcpMessage ℕ
insert id = record {
  msg_type = type_exec;
  id = id;
  query = "INSERT";
  args = [];
  idempotency_key = "key";
  client_ip = "10.0.0.1";
  request_size = pos 80;
}

abbrev line : Server.Line ℕ
line = record { time = 9; size = 80; decoded = ok (insert "1") }

abbrev stored : TcpResponse String
stored = record { id = "1"; success = true; error = ""; payload = "exec" }

nonempty : ◌≢◌ {A = String} "key" ""
nonempty e = let t : false ≡ true = (eq_iff "key" "").1 e in cc

abbrev others : List (ℕ × TcpMessage ℕ)
others = (6, record (insert "3") { idempotency_key = "other" }) ∷ []

other_key : ◌≢◌ {A = String} "other" "key"
other_key e = let t : false ≡ true = (eq_iff "other" "key").1 e in cc

replay_example :
    let (server', s) =
      Replay.handle_messages backend others
        (Server.store_idempotency backend 5 (insert "1") (some stored) server)
        7 in
    let served = Server.after_limits backend 90 (insert "2") server' s in
    (served.sent ≡ stored ∷ []) × (served.state ≡ s)
unfolding is_past
replay_example =
    Replay.replay backend 5 90 (insert "1") (insert "2") others server
      (record {
        ll = [];
        capacity = 10;
        default_ttl = pos 0;
        hits = 0;
        misses = 0;
        evictions = 0;
        expired_count = 0;
      })
      stored 7 refl refl nonempty refl (other_key, tt) (omega arith) refl

handle_client-counts_example :
    Limits.connections "10.0.0.1"
      (Server.handle_client backend "10.0.0.1" (line ∷ []) server 7).server.guard
    ≡ Limits.connections "10.0.0.1" guard
      + (if str_eq "10.0.0.1" "10.0.0.1" && (Admission.allow_connection "10.0.0.1" guard).1
          then 1
          else 0)
handle_client-counts_example =
    Limits.handle_client-counts backend "10.0.0.1" "10.0.0.1" (line ∷ []) server 7 refl
      (omega arith)

abbrev client : TcpClient
client = record {
  address = "localhost:9090";
  message_id = 1;
  timeout = pos 5;
  connected = true;
  mu_locked = false;
  conn_writer = false;
  conn_readers = 0;
}

-- A connection on which the server repeats the response that it has stored.
abbrev network : Network ℕ String
network = record {
  dial = ok tt;
  set_write_deadline = ok tt;
  encode = λ m. ok m.id;
  write = λ bytes. ok tt;
  set_read_deadline = ok tt;
  scan = λ bytes. ok (some bytes);
  decode = λ line. ok stored;
}

network-Repeats : Locks.Repeats network stored
network-Repeats = record {
  write_deadline = refl;
  read_deadline = refl;
  encodes = λ m. (m.id, refl);
  writes = λ bytes. refl;
  answers = λ bytes. (bytes, refl, refl);
}

abbrev parse : String → Result ExecResult
parse text = ok (record { rows_affected = pos 1; last_insert_id = pos 0 })

client-IsIdle : Locks.IsIdle client
client-IsIdle = record { mu_free = refl; no_writer = refl; no_readers = refl }

disconnect_blocks_example : Client.disconnect network client ≡ none
disconnect_blocks_example = Locks.disconnect_blocks network client client-IsIdle refl

exec_returns_example :
    Client.exec_with_idempotency network parse "INSERT" "key" [] client
    ≡ some (
      record client { message_id = uint64 2 },
      Locks.outcome network parse "INSERT" "key" [] client,
    )
exec_returns_example = Locks.exec_returns network parse "INSERT" "key" [] client client-IsIdle

exec_refuses_replay_example :
    Client.exec_with_idempotency network parse "INSERT" "key" [] client
    ≡ some (
      record client { message_id = 2 },
      err (message ("response ID mismatch: expected " ++ decimal 2 ++ ", got " ++ decimal 1)),
    )
unfolding decimal
exec_refuses_replay_example =
    Locks.exec_refuses_replay network parse "INSERT" "key" [] client 1 stored client-IsIdle refl
      network-Repeats refl (omega arith) (omega arith)
