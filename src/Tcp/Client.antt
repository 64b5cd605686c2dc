-- ===== src/Tcp/Client.antt =====
-- tcp_client.go: TCPClient. A method runs against the two locks: `conn_mu` (sync.RWMutex) and `mu`
-- (sync.Mutex). A goroutine that asks for a lock which it cannot have stays blocked, `none`.
-- `Network` is what the connection answers.
pub mod Locks
use Prim.Native.String.{◌++◌}
use fluxor_db.Base.{
  ℕ, zero, suc, ◌+◌, String, Bool, true, false, ◌&&◌, not, Option, none, some, str_eq,
  if◌then◌else◌, List, [], ◌∷◌, ◌==◌,
}
use fluxor_db.Base.Decimal.{decimal}
use fluxor_db.Base.Int.{ℤ, pos, is_pos, uint64}
use fluxor_db.Errors.{Err, Result, ok, err, ◌>>=◌, message, wrapped, error_text}
use fluxor_db.Tcp.Protocol.{
  TcpMessage, TcpResponse, ExecResult, type_exec, type_query, type_ping, type_stats, type_metrics,
  type_close,
}

-- An RWMutex: a writer, or readers. A Mutex is a Boolean.
pub record TcpClient : Type 0 where
  pub address : String
  pub message_id : ℕ
  pub timeout : ℤ
  pub connected : Bool
  pub mu_locked : Bool
  pub conn_writer : Bool
  pub conn_readers : ℕ

unfoldable pub new_tcp_client : String → ℤ → TcpClient
new_tcp_client address timeout = record {
  address = address;
  message_id = 0;
  timeout = if is_pos timeout then timeout else pos 30000000000;
  connected = false;
  mu_locked = false;
  conn_writer = false;
  conn_readers = 0;
}

-- SetTimeout and GetAddress, which take no lock.
unfoldable pub set_timeout : ℤ → TcpClient → TcpClient
set_timeout timeout c = record c { timeout = timeout }

unfoldable pub get_address : TcpClient → String
get_address c = c.address

-- A step of a goroutine: `none` while it waits for a lock.
abbrev pub M : Type 0 → Type 0
M A = TcpClient → Option (TcpClient × A)

abbrev pub pure : {A : Type 0} → A → M A
pure a c = some (c, a)

infixl 5 ◌>>>◌ ◌>>-◌
abbrev pub ◌>>>◌ : {A B : Type 0} → M A → (A → M B) → M B
◌>>>◌ m f c = elim (m c) [ none ↦ none | some (c', a) ↦ f a c' ]

abbrev pub ◌>>-◌ : {B : Type 0} → M (Unit {0}) → M B → M B
m >>- k = m >>> λ _. k

unfoldable pub lock_conn : M (Unit {0})
lock_conn c =
    if not c.conn_writer && c.conn_readers == 0
    then some (record c { conn_writer = true }, tt)
    else none

unfoldable pub unlock_conn : M (Unit {0})
unlock_conn c = some (record c { conn_writer = false }, tt)

unfoldable pub lock_mu : M (Unit {0})
lock_mu c = if c.mu_locked then none else some (record c { mu_locked = true }, tt)

unfoldable pub unlock_mu : M (Unit {0})
unlock_mu c = some (record c { mu_locked = false }, tt)

-- IsConnected: a reader that leaves at once.
unfoldable pub is_connected : M Bool
is_connected c = if c.conn_writer then none else some (c, c.connected)

-- What the network and encoding/json answer: net.DialTimeout, the deadlines, EncodeTCPMessage, Write,
-- the next line after what was written (none at the end of the stream), DecodeTCPResponse. Bytes are
-- a String.
pub record Network (Arg Data : Type 0) : Type 0 where
  pub dial : Result (Unit {0})
  pub set_write_deadline : Result (Unit {0})
  pub encode : TcpMessage Arg → Result String
  pub write : String → Result (Unit {0})
  pub set_read_deadline : Result (Unit {0})
  pub scan : String → Result (Option String)
  pub decode : String → Result (TcpResponse Data)

unfoldable pub next_id : M String
next_id c = let id = uint64 (c.message_id + 1) in some (record c { message_id = id }, decimal id)

set_connected : Bool → M (Unit {0})
set_connected b c = some (record c { connected = b }, tt)

get_connected : M Bool
get_connected c = some (c, c.connected)

module _ {Arg Data : Type 0} (net : Network Arg Data) where
  dialed : Result (Unit {0}) → M (Option Err)
  dialed (ok _) c = some (record c { connected = true }, none)
  dialed (err e) c = some (c, some (wrapped ("failed to connect to " ++ c.address ++ ": ") e ""))

  unfoldable pub connect : M (Option Err)
  unfolding dialed lock_conn unlock_conn get_connected
  connect =
      lock_conn
      >>- (get_connected >>> λ up.
          (if up then pure (some (message "already connected")) else dialed net.dial))
      >>> λ e. unlock_conn >>- pure e

  -- The answer of the server is taken only if it has the id of the message.
  unfoldable pub matching : TcpMessage Arg → TcpResponse Data → Result (TcpResponse Data)
  matching msg resp =
      if str_eq resp.id msg.id
      then ok resp
      else err (message ("response ID mismatch: expected " ++ msg.id ++ ", got " ++ resp.id))

  -- fmt.Errorf(text + ": %w", err) on an error.
  abbrev pub labelled : {A : Type 0} → String → Result A → Result A
  labelled text (ok a) = ok a
  labelled text (err e) = err (wrapped text e "")

  -- One line of the stream.
  abbrev pub scanned : Option String → Result String
  scanned (some line) = ok line
  scanned none = err (message "connection closed")

  -- sendMessage, on a connection.
  unfoldable pub write_message : TcpMessage Arg → Result (Unit {0})
  write_message msg =
      net.encode msg >>= λ bytes. labelled "failed to send message: " (net.write bytes)

  -- sendAndReceive, on a connection.
  unfoldable pub exchange : TcpMessage Arg → Result (TcpResponse Data)
  unfolding matching
  exchange msg = do
    _ ← labelled "failed to set write deadline: " net.set_write_deadline
    bytes ← net.encode msg
    _ ← labelled "failed to send message: " (net.write bytes)
    _ ← labelled "failed to set read deadline: " net.set_read_deadline
    next ← labelled "failed to read response: " (net.scan bytes)
    line ← scanned next
    resp ← net.decode line
    matching msg resp

  unfoldable pub send_and_receive : TcpMessage Arg → M (Result (TcpResponse Data))
  unfolding lock_mu unlock_mu is_connected exchange
  send_and_receive msg =
      lock_mu
      >>- (is_connected >>> λ up. pure (if up then exchange msg else err (message "not connected")))
      >>> λ r. unlock_mu >>- pure r

  unfoldable pub send_message : TcpMessage Arg → M (Result (Unit {0}))
  unfolding lock_mu unlock_mu is_connected write_message
  send_message msg =
      lock_mu
      >>- (is_connected >>> λ up.
          pure (if up then write_message msg else err (message "not connected")))
      >>> λ r. unlock_mu >>- pure r

  abbrev pub make : String → String → List Arg → String → String → TcpMessage Arg
  make msg_type query args key id = record {
    msg_type = msg_type;
    id = id;
    query = query;
    args = args;
    idempotency_key = key;
    client_ip = "";
    request_size = pos 0;
  }

  -- Disconnect after the check: a CLOSE message, then the connection is dropped.
  unfoldable pub say_goodbye : M (Option Err)
  unfolding next_id send_message set_connected
  say_goodbye = next_id >>> λ id.
      send_message (make type_close "" [] "" id) >>> λ _. set_connected false >>- pure none

  unfoldable pub disconnect : M (Option Err)
  unfolding lock_conn unlock_conn get_connected
  disconnect =
      lock_conn
      >>- (get_connected >>> λ up.
          (if up then say_goodbye else pure (some (message "not connected"))))
      >>> λ e. unlock_conn >>- pure e

  -- `if !resp.Success` and the parser of the payload.
  abbrev pub parsed :
      {A : Type 0} → String → (Data → Result A) → Result (TcpResponse Data) → Result A
  parsed what parse (err e) = err e
  parsed what parse (ok resp) =
      if resp.success then parse resp.payload else err (message (what ++ " failed: " ++ resp.error))

  request : {A : Type 0} → String → (Data → Result A) → (String → TcpMessage Arg) → M (Result A)
  unfolding next_id
  request what parse build =
      next_id >>> λ id. send_and_receive (build id) >>> λ r. pure (parsed what parse r)

  unfoldable pub ping : M (Result (Unit {0}))
  unfolding request
  ping = request "ping" (λ _. ok tt) (make type_ping "" [] "")

  unfoldable pub exec_with_idempotency :
      (Data → Result ExecResult) → String → String → List Arg → M (Result ExecResult)
  unfolding request
  exec_with_idempotency parse query key args = request "exec" parse (make type_exec query args key)

  unfoldable pub exec : (Data → Result ExecResult) → String → List Arg → M (Result ExecResult)
  unfolding exec_with_idempotency
  exec parse query args = exec_with_idempotency parse query "" args

  unfoldable pub query_with_idempotency :
      {Q : Type 0} → (Data → Result Q) → String → String → List Arg → M (Result Q)
  unfolding request
  query_with_idempotency parse query key args =
      request "query" parse (make type_query query args key)

  unfoldable pub query : {Q : Type 0} → (Data → Result Q) → String → List Arg → M (Result Q)
  unfolding query_with_idempotency
  query parse text args = query_with_idempotency parse text "" args

  unfoldable pub stats : {Q : Type 0} → (Data → Result Q) → M (Result Q)
  unfolding request
  stats parse = request "stats" parse (make type_stats "" [] "")

  unfoldable pub metrics : {Q : Type 0} → (Data → Result Q) → M (Result Q)
  unfolding request
  metrics parse = request "metrics" parse (make type_metrics "" [] "")
