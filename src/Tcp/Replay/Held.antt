-- ===== src/Tcp/Replay/Held.antt =====
-- tcp_server.go: what messages leave of an entry of the idempotency cache.
use fluxor_db.Base.{
  ℕ, suc, ◌<◌, ◌≡◌, ◌≢◌, ◌∙◌, ◌&&◌, ap, sym, refl, String, Bool, true, false, Option, none, some,
  str_eq, arith, Option-cases, Bool-cases, inl, inr, if◌then◌else◌,
}
use fluxor_db.Base.Int.{pos, is_pos, ltb_ℤ}
use mathlib.Core.Path.{subst}
use fluxor_db.Cache
use fluxor_db.Cache.{CacheItem, InMemoryCache}
use fluxor_db.Cache.Near.{seek, seek-suc, seek-get, seek-set}
use fluxor_db.Tcp.Admission.{Guard, check_rate_limit}
use fluxor_db.Tcp.Protocol.{TcpMessage, TcpResponse, type_exec, type_query, type_ping}
use fluxor_db.Tcp.Server.{
  Backend, TcpServer, store_idempotency, check_idempotency, after_limits, dispatch, handle_message,
  handle_exec, handle_query, to_store, uses_idempotency,
}

-- The server's cache has the entry of the key among its first entries.
pub record IsHeld {Data : Type 0} (n capacity : ℕ) (key : String) (i : CacheItem (TcpResponse Data))
    (srv : TcpServer Data) : Type 0 where
  pub cache : InMemoryCache (TcpResponse Data)
  pub held : srv.idempotency_cache ≡ some cache
  pub near : seek n key cache.ll ≡ some i
  pub room : cache.capacity ≡ capacity
  pub on : srv.guard.config.enable_idempotency ≡ true

check_rate_limit-config :
    (now : ℕ) (ip : String) (g : Guard) → (check_rate_limit now ip g).0.config ≡ g.config
unfolding check_rate_limit
check_rate_limit-config now ip g = ground arith

-- A property of both branches is one of the conditional.
either : {A : Type 0} {x y : A} (P : A → Type 0) (t : Bool) → P x → P y → P (if t then x else y)
either P true h h' = h
either P false h h' = h'

module _ {Arg Other Data S : Type 0} (b : Backend Arg Other Data S) where
  -- What dispatch stores under the key of the message.
  abbrev stores : TcpMessage Arg → TcpServer Data → S → Option (TcpResponse Data)
  stores msg srv s =
      if uses_idempotency b msg srv
      then if str_eq msg.msg_type type_ping
        then none
        else if str_eq msg.msg_type type_exec
        then to_store b (handle_exec b msg s).1
        else if str_eq msg.msg_type type_query
        then to_store b (handle_query b msg s).1
        else none
      else none

  dispatch-server :
      (now : ℕ) (msg : TcpMessage Arg) (srv : TcpServer Data) (s : S)
      → (dispatch b now msg srv s).server ≡ store_idempotency b now msg (stores msg srv s) srv
  unfolding dispatch store_idempotency
  dispatch-server now msg srv s = ground arith

  abbrev large : TcpMessage Arg → TcpServer Data → Bool
  large msg srv =
      let config = srv.guard.config in
      config.enable_ddos_protection
      && is_pos config.max_request_size
      && ltb_ℤ config.max_request_size msg.request_size

  handle_message-server :
      (now : ℕ) (msg : TcpMessage Arg) (srv : TcpServer Data) (s : S)
      → let g = check_rate_limit now msg.client_ip srv.guard in
        let srv' = record srv { guard = g.0 } in
        (handle_message b now msg srv s).server ≡ (
          if large msg srv
          then srv
          else if srv.guard.config.enable_ddos_protection
          then if g.1 then (after_limits b now msg srv' s).server else srv'
          else (after_limits b now msg srv s).server)
  unfolding handle_message
  handle_message-server now msg srv s = ground arith

  IsHeld-suc :
      {n capacity : ℕ} {key : String} {i : CacheItem (TcpResponse Data)} {srv : TcpServer Data}
      → IsHeld n capacity key i srv
      → IsHeld (suc n) capacity key i srv
  IsHeld-suc {n} {capacity} {key} {i} {srv} h = record {
    cache = h.cache;
    held = h.held;
    near = seek-suc n key h.cache.ll i h.near;
    room = h.room;
    on = h.on;
  }

  put_back :
      {n capacity : ℕ} {key : String} {i : CacheItem (TcpResponse Data)} {srv : TcpServer Data}
      → (h : IsHeld n capacity key i srv)
      → IsHeld n capacity key i (record srv { idempotency_cache = some h.cache })
  put_back h = record { cache = h.cache; held = refl; near = h.near; room = h.room; on = h.on }

  module _ (n capacity now : ℕ) (key : String) (i : CacheItem (TcpResponse Data))
      (msg : TcpMessage Arg) (ne : msg.idempotency_key ≢ key) where
    store_idempotency-IsHeld :
        (r : Option (TcpResponse Data)) (srv : TcpServer Data)
        → n < capacity
        → IsHeld n capacity key i srv
        → IsHeld (suc n) capacity key i (store_idempotency b now msg r srv)
    unfolding store_idempotency
    store_idempotency-IsHeld none srv few h = IsHeld-suc h
    store_idempotency-IsHeld (some resp) srv few h =
        elim (Bool-cases (str_eq msg.idempotency_key "")) [
          | inl empty ↦ rw (h.held, empty) (IsHeld-suc (put_back h))
          | inr keyed ↦
              let set =
                seek-set n now key msg.idempotency_key resp (pos 300000000000) h.cache i ne
                  (rw (h.room) few) h.near in
              rw (h.held, keyed)
                (record {
                  cache = Cache.set now msg.idempotency_key resp (pos 300000000000) h.cache;
                  held = refl;
                  near = set.0;
                  room = set.1 ∙ h.room;
                  on = h.on;
                })
        ]

    dispatch-IsHeld :
        (srv : TcpServer Data) (s : S)
        → n < capacity
        → IsHeld n capacity key i srv
        → IsHeld (suc n) capacity key i (dispatch b now msg srv s).server
    dispatch-IsHeld srv s few h =
        rw (dispatch-server now msg srv s) (store_idempotency-IsHeld (stores msg srv s) srv few h)

    check_idempotency-IsHeld :
        (srv : TcpServer Data)
        → IsHeld n capacity key i srv
        → let checked = check_idempotency b now msg srv in
          (IsHeld (suc n) capacity key i checked.0)
          × (checked.1 ≡ none → IsHeld n capacity key i checked.0)
    unfolding check_idempotency
    check_idempotency-IsHeld srv h = elim (Bool-cases (str_eq msg.idempotency_key "")) [
      | inl empty ↦ rw (h.held, empty) (IsHeld-suc (put_back h), λ _. put_back h)
      | inr keyed ↦
          let found = seek-get n now key msg.idempotency_key h.cache i ne h.near in
          let c = (Cache.get now msg.idempotency_key h.cache).0 in
          rw (h.held, keyed)
            (
              record { cache = c; held = refl; near = found.0; room = found.2 ∙ h.room; on = h.on },
              λ miss. record {
                cache = c;
                held = refl;
                near = found.1 miss;
                room = found.2 ∙ h.room;
                on = h.on;
              },
            )
    ]

    after_limits-IsHeld :
        (srv : TcpServer Data) (s : S)
        → n < capacity
        → IsHeld n capacity key i srv
        → IsHeld (suc n) capacity key i (after_limits b now msg srv s).server
    unfolding after_limits
    after_limits-IsHeld srv s few h =
        let kept = check_idempotency-IsHeld srv h in
        elim (Bool-cases (uses_idempotency b msg srv)) [
          | inr plain ↦ rw (plain) (dispatch-IsHeld srv s few h)
          | inl keyed ↦ rw (keyed) (elim (Option-cases (check_idempotency b now msg srv).1) [
            | inl miss ↦
                rw (miss) (dispatch-IsHeld (check_idempotency b now msg srv).0 s few (kept.1 miss))
            | inr (resp, hit) ↦ rw (hit) kept.0
          ])
        ]

    -- A message with another key takes the entry at most one place back.
    pub handle_message-IsHeld :
        (srv : TcpServer Data) (s : S)
        → n < capacity
        → IsHeld n capacity key i srv
        → IsHeld (suc n) capacity key i (handle_message b now msg srv s).server
    handle_message-IsHeld srv s few h =
        let g = check_rate_limit now msg.client_ip srv.guard in
        let h' : IsHeld n capacity key i (record srv { guard = g.0 }) = record {
          cache = h.cache;
          held = h.held;
          near = h.near;
          room = h.room;
          on =
              ap (λ c. c.enable_idempotency) (check_rate_limit-config now msg.client_ip srv.guard)
              ∙ h.on;
        } in
        let P = IsHeld (suc n) capacity key i in
        subst P (sym (handle_message-server now msg srv s)) (
          either P (large msg srv) (IsHeld-suc h) (
            either P srv.guard.config.enable_ddos_protection
              (either P g.1 (after_limits-IsHeld (record srv { guard = g.0 }) s few h')
                (IsHeld-suc h'))
              (after_limits-IsHeld srv s few h)))
