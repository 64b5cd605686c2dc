-- ===== src/Tcp/Limits.antt =====
-- tcp_server.go: what the limits on addresses come to.
use fluxor_db.Base.{
  ℕ, suc, ◌+◌, ◌≤◌, ◌<◌, ◌≡◌, ◌≢◌, ◌⊎◌, refl, String, true, false, List, [], ◌∷◌, str_eq, eq_iff,
  eq_refl, if◌then◌else◌, arith, ◌&&◌,
}
use fluxor_db.Base.Dict.{lookup, lookup-assign}
use fluxor_db.Base.Int.{pos, pos_part, ◌<ℤ◌}
use fluxor_db.Errors.{ok, err}
use fluxor_db.Tcp.Protocol.{TcpMessage}
use fluxor_db.Tcp.Admission.{
  Guard, contains, allow_connection, check_rate_limit, count_of, one_second,
}
use fluxor_db.Tcp.Server.{
  Backend, TcpServer, Line, tracked, dispatch, after_limits, handle_message, serve, handle_client,
  store_idempotency, check_idempotency,
}

-- The connections from an address that were let in.
abbrev pub connections : String → Guard → ℕ
connections ip g = count_of (lookup ip g.ip_connections)

-- An address that is let in is not on the blacklist, and is on the whitelist if that is not empty.
pub allow_connection_listed :
    (ip : String) (g : Guard)
    → (allow_connection ip g).1 ≡ true
    → (contains ip g.config.blacklisted_ips ≡ false)
      × ((g.config.whitelisted_ips ≡ []) ⊎ (contains ip g.config.whitelisted_ips ≡ true))
unfolding allow_connection
allow_connection_listed ip g h = ground arith

-- With a limit on connections, one that is let in is counted, and was below the limit.
pub allow_connection-counts :
    (ip other : String) (g : Guard)
    → pos 0 <ℤ g.config.max_connections_per_ip
    → connections other (allow_connection ip g).0
      ≡ connections other g + (if str_eq ip other && (allow_connection ip g).1 then 1 else 0)
unfolding allow_connection
allow_connection-counts ip other g h =
    let n = connections ip g in
    ground (arith, lookup-assign ip other (suc n) g.ip_connections, (eq_iff ip other).0)

-- With a positive rate limit of any size, a request that was granted makes every request of the
-- same address within a second refused, and the refusal changes nothing.
pub rate_limit_second :
    (now later : ℕ) (ip : String) (g : Guard)
    → pos 0 <ℤ g.config.rate_limit_per_ip
    → (check_rate_limit now ip g).1 ≡ true
    → later < now + one_second
    → check_rate_limit later ip (check_rate_limit now ip g).0
      ≡ ((check_rate_limit now ip g).0, false)
unfolding check_rate_limit
rate_limit_second now later ip g h granted soon =
    ground (arith, lookup-assign ip ip now g.ip_rate_limits, eq_refl ip)

-- A request of one address does not change whether a later request of another address is granted.
pub rate_limit_other :
    (now later : ℕ) (ip other : String) (g : Guard)
    → ip ≢ other
    → (check_rate_limit later other (check_rate_limit now ip g).0).1
      ≡ (check_rate_limit later other g).1
unfolding check_rate_limit
rate_limit_other now later ip other g h =
    ground (arith, lookup-assign ip other now g.ip_rate_limits, (eq_iff ip other).0)

module _ {Arg Other Data S : Type 0} (b : Backend Arg Other Data S) where
  dispatch-guard :
      (now : ℕ) (msg : TcpMessage Arg) (srv : TcpServer Data) (s : S)
      → (dispatch b now msg srv s).server.guard ≡ srv.guard
  unfolding dispatch store_idempotency
  dispatch-guard now msg srv s = ground arith

  after_limits-guard :
      (now : ℕ) (msg : TcpMessage Arg) (srv : TcpServer Data) (s : S)
      → (after_limits b now msg srv s).server.guard ≡ srv.guard
  unfolding after_limits check_idempotency
  after_limits-guard now msg srv s =
      let srv' = (check_idempotency b now msg srv).0 in
      ground (arith, dispatch-guard now msg srv s, dispatch-guard now msg srv' s)

  handle_message-connections :
      (now : ℕ) (msg : TcpMessage Arg) (srv : TcpServer Data) (s : S)
      → (handle_message b now msg srv s).server.guard.ip_connections ≡ srv.guard.ip_connections
  unfolding handle_message check_rate_limit
  handle_message-connections now msg srv s = ground (
    arith,
    after_limits-guard now msg srv s,
    after_limits-guard now msg
        (record srv { guard = (check_rate_limit now msg.client_ip srv.guard).0 }) s,
  )

  serve-connections :
      (ip : String) (lines : List (Line Arg)) (srv : TcpServer Data) (s : S)
      → (serve b ip lines srv s).server.guard.ip_connections ≡ srv.guard.ip_connections
  unfolding serve
  serve-connections ip [] srv s = refl
  serve-connections ip (line ∷ lines) srv s =
      elim line.decoded
        as (λ d.
          (serve b ip (record line { decoded = d } ∷ lines) srv s).server.guard.ip_connections
          ≡ srv.guard.ip_connections) [
            | err e ↦ serve-connections ip lines srv s
            | ok msg ↦
                let m = tracked b ip line msg in
                let h = handle_message b line.time m srv s in
                ground (
                  arith,
                  handle_message-connections line.time m srv s,
                  serve-connections ip lines h.server h.state,
                )
          ]

  -- With DDoS protection and a positive connection limit, after a whole client connection of any
  -- lines the count of every address is what it was, and one more for the client's own address if
  -- it was let in: the connection is not taken off when it ends.
  pub handle_client-counts :
      (ip other : String) (lines : List (Line Arg)) (srv : TcpServer Data) (s : S)
      → srv.guard.config.enable_ddos_protection ≡ true
      → pos 0 <ℤ srv.guard.config.max_connections_per_ip
      → connections other (handle_client b ip lines srv s).server.guard
        ≡ connections other srv.guard
          + (if str_eq ip other && (allow_connection ip srv.guard).1 then 1 else 0)
  unfolding handle_client
  handle_client-counts ip other lines srv s on h =
      let g = (allow_connection ip srv.guard).0 in
      ground (
        arith,
        serve-connections ip lines (record srv { guard = g }) s,
        allow_connection-counts ip other srv.guard h,
      )

  -- With DDoS protection and a positive connection limit, a client of an address whose count has
  -- met the limit is answered nothing, and the server and the runtime stay as they were.
  pub handle_client_refused :
      (ip : String) (lines : List (Line Arg)) (srv : TcpServer Data) (s : S)
      → srv.guard.config.enable_ddos_protection ≡ true
      → pos 0 <ℤ srv.guard.config.max_connections_per_ip
      → pos_part srv.guard.config.max_connections_per_ip ≤ connections ip srv.guard
      → handle_client b ip lines srv s ≡ record { server = srv; state = s; sent = [] }
  unfolding handle_client allow_connection
  handle_client_refused ip lines srv s on h full = ground arith
