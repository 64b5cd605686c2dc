-- ===== src/Tcp/Client/Locks.antt =====
-- tcp_client.go: the locks of the client. A request gives back what it takes; Disconnect waits for
-- a lock that its own goroutine holds.
use fluxor_db.Base.{
  ℕ, ◌+◌, ◌≤◌, ◌<◌, ◌≡◌, ◌∙◌, refl, String, Bool, true, false, none, some, List, str_eq,
  if◌then◌else◌, arith,
}
use mathlib.Core.Path.{subst}
use Prim.Native.String.{◌++◌}
use fluxor_db.Base.Decimal.{decimal, decimal_injective}
use fluxor_db.Base.Dict.{str_eq-false}
use fluxor_db.Base.Int.{uint64, uint64_id, two64}
use fluxor_db.Errors.{Result, ok, err, message}
use fluxor_db.Tcp.Protocol.{TcpMessage, TcpResponse, ExecResult, type_exec}
use fluxor_db.Tcp.Client.{
  TcpClient, Network, disconnect, send_and_receive, next_id, exec_with_idempotency, say_goodbye,
  parsed, make, exchange,
}

-- Nobody holds a lock.
pub record IsIdle (c : TcpClient) : Type 0 where
  pub mu_free : c.mu_locked ≡ false
  pub no_writer : c.conn_writer ≡ false
  pub no_readers : c.conn_readers ≡ 0

-- An idle client with its locks written out.
abbrev unlocked : TcpClient → TcpClient
unlocked c = record c { mu_locked = false; conn_writer = false; conn_readers = 0 }

unlocked_lem : (c : TcpClient) → IsIdle c → unlocked c ≡ c
unlocked_lem c h = ground arith

up_lem :
    (c : TcpClient) (b : Bool)
    → IsIdle c
    → c.connected ≡ b
    → record (unlocked c) { connected = b } ≡ c
up_lem c b h e = ground arith

-- A network without faults on which every message is answered with the response `old`.
pub record Repeats {Arg Data : Type 0} (net : Network Arg Data) (old : TcpResponse Data)
    : Type 0 where
  pub write_deadline : net.set_write_deadline ≡ ok tt
  pub read_deadline : net.set_read_deadline ≡ ok tt
  pub encodes : (msg : TcpMessage Arg) → (bytes : String) × (net.encode msg ≡ ok bytes)
  pub writes : (bytes : String) → net.write bytes ≡ ok tt
  pub answers :
      (bytes : String)
      → (line : String) × (net.scan bytes ≡ ok (some line)) × (net.decode line ≡ ok old)

module _ {Arg Data : Type 0} (net : Network Arg Data) where
  -- Disconnect of a connected client whose locks are all free never returns, whatever the network
  -- answers: it waits for a read lock while it holds the write lock.
  pub disconnect_blocks : (c : TcpClient) → IsIdle c → c.connected ≡ true → disconnect net c ≡ none
  unfolding disconnect say_goodbye
  disconnect_blocks c h up = subst (λ x. disconnect net x ≡ none) (up_lem c true h up) refl

  -- A client that is not connected gets its error, and nothing has changed.
  pub disconnect_refused :
      (c : TcpClient)
      → IsIdle c
      → c.connected ≡ false
      → disconnect net c ≡ some (c, some (message "not connected"))
  unfolding disconnect
  disconnect_refused c h down =
      subst (λ x. disconnect net x ≡ some (x, some (message "not connected")))
        (up_lem c false h down) refl

  -- What a request comes to: an exchange if the client is connected, an error if not.
  abbrev pub outcome :
      (Data → Result ExecResult) → String → String → List Arg → TcpClient → Result ExecResult
  outcome parse query key args c = parsed net "exec" parse (
      if c.connected
      then exchange net (make net type_exec query args key (decimal (uint64 (c.message_id + 1))))
      else err (message "not connected"))

  -- ExecWithIdempotency of a client whose locks are all free returns with the locks free; only the
  -- message number has gone up, as a uint64, and the result is that of the exchange, or an error if
  -- the client is not connected.
  pub exec_returns :
      (parse : Data → Result ExecResult) (query key : String) (args : List Arg) (c : TcpClient)
      → IsIdle c
      → exec_with_idempotency net parse query key args c
        ≡ some (record c { message_id = uint64 (c.message_id + 1) }, outcome parse query key args c)
  unfolding exec_with_idempotency send_and_receive next_id
  exec_returns parse query key args c h =
      subst
        (λ x.
          exec_with_idempotency net parse query key args x
          ≡ some
              (record x { message_id = uint64 (x.message_id + 1) }, outcome parse query key args x))
        (unlocked_lem c h) refl

  mismatch :
      (msg : TcpMessage Arg) (resp : TcpResponse Data)
      → Repeats net resp
      → str_eq resp.id msg.id ≡ false
      → exchange net msg
        ≡ err (message ("response ID mismatch: expected " ++ msg.id ++ ", got " ++ resp.id))
  unfolding exchange
  mismatch msg resp h differ =
      let (bytes, e) = h.encodes msg in
      let (line, f, g) = h.answers bytes in
      rw (h.write_deadline, e, h.writes bytes, h.read_deadline, f, g, differ) refl

  -- A connected client whose locks are free, on a faultless network that answers with the response
  -- to an earlier message, the one with number k, refuses it with the id mismatch error, if its
  -- message number does not overflow.
  pub exec_refuses_replay :
      (parse : Data → Result ExecResult) (query key : String) (args : List Arg) (c : TcpClient)
      (k : ℕ) (old : TcpResponse Data)
      → IsIdle c
      → c.connected ≡ true
      → Repeats net old
      → old.id ≡ decimal k
      → k ≤ c.message_id
      → c.message_id + 1 < two64
      → exec_with_idempotency net parse query key args c
        ≡ some (
          record c { message_id = c.message_id + 1 },
          err (
              message (
                "response ID mismatch: expected "
                ++ decimal (c.message_id + 1)
                ++ ", got "
                ++ decimal k)),
        )
  exec_refuses_replay parse query key args c k old h up repeats id le fits =
      let n = c.message_id + 1 in
      let same : uint64 n ≡ n = uint64_id n fits in
      let differ : str_eq (decimal k) (decimal n) ≡ false =
        str_eq-false _ _
          (λ (e : decimal k ≡ decimal n). absurd (omega (arith, decimal_injective k n e))) in
      exec_returns parse query key args c h
      ∙ rw
          (
            same,
            up,
            mismatch (make net type_exec query args key (decimal n)) old repeats (rw id differ),
            id,
          )
          refl
