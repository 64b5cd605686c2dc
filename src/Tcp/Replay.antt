-- ===== src/Tcp/Replay.antt =====
-- tcp_server.go and tcp_client.go together: what becomes of a repeated request.
pub mod Held
use mathlib.Core.Path.{subst}
use fluxor_db.Base.{
  ℕ, suc, ◌+◌, ◌<◌, ◌≡◌, ◌≢◌, ◌∙◌, ap, refl, true, false, Bool, String, none, some, List, [], ◌∷◌,
  length, All, str_eq, arith,
}
use fluxor_db.Base.Dict.{str_eq-false}
use fluxor_db.Base.Int.{pos}
use fluxor_db.Cache
use fluxor_db.Cache.{CacheItem, InMemoryCache, is_past, effective_expire}
use fluxor_db.Cache.Near.{find-seek, seek-set_self}
use fluxor_db.Cache.Reads.{get-answer, answer}
use fluxor_db.Tcp.Protocol.{TcpMessage, TcpResponse}
use fluxor_db.Tcp.Replay.Held.{IsHeld, handle_message-IsHeld}
use fluxor_db.Tcp.Server.{
  Backend, TcpServer, store_idempotency, check_idempotency, after_limits, handle_message,
}

module _ {Arg Other Data S : Type 0} (b : Backend Arg Other Data S) where
  -- handleMessage for each of the messages, of whatever connections, with the time of each.
  pub handle_messages : List (ℕ × TcpMessage Arg) → TcpServer Data → S → TcpServer Data × S
  handle_messages [] srv s = (srv, s)
  handle_messages ((now, msg) ∷ msgs) srv s =
      let served = handle_message b now msg srv s in handle_messages msgs served.server served.state

  module _ (key : String) (i : CacheItem (TcpResponse Data)) where
    handle_messages-IsHeld :
        (n capacity : ℕ) (msgs : List (ℕ × TcpMessage Arg)) (srv : TcpServer Data) (s : S)
        → All (λ m. m.1.idempotency_key ≢ key) msgs
        → n + length msgs < suc capacity
        → IsHeld n capacity key i srv
        → IsHeld (n + length msgs) capacity key i (handle_messages msgs srv s).0
    unfolding handle_messages
    handle_messages-IsHeld n capacity [] srv s others few h =
        subst (λ m. IsHeld m capacity key i srv) (omega arith) h
    handle_messages-IsHeld n capacity ((now, msg) ∷ msgs) srv s others few h =
        let served = handle_message b now msg srv s in
        let held =
          handle_messages-IsHeld (suc n) capacity msgs served.server served.state others.1
            (omega arith)
            (handle_message-IsHeld b n capacity now key i msg others.0 srv s (omega arith) h) in
        subst (λ m. IsHeld m capacity key i (handle_messages msgs served.server served.state).0)
          (omega arith) held

    -- A message with the key of an entry that is not past is answered with its response.
    after_limits-answers :
        (n capacity later : ℕ) (msg : TcpMessage Arg) (srv : TcpServer Data) (s : S)
        → str_eq msg.idempotency_key "" ≡ false
        → msg.idempotency_key ≡ key
        → is_past later i.expire_at ≡ false
        → IsHeld n capacity key i srv
        → let served = after_limits b later msg srv s in
          (served.sent ≡ i.value ∷ []) × (served.state ≡ s)
    unfolding after_limits check_idempotency
    after_limits-answers n capacity later msg srv s nonempty same fresh h =
        let found : (Cache.get later msg.idempotency_key h.cache).1 ≡ some i.value = rw same (
          get-answer later key h.cache
          ∙ ap (answer later) (find-seek n key h.cache.ll i h.near)
          ∙ rw (fresh, answer) refl) in
        ground (arith, nonempty, h.held, h.on, found)

  -- On a server with idempotency on, after a response was stored under a nonempty key and then
  -- messages with other keys or none were handled, fewer than the capacity of the cache, a message
  -- with that key that is past the limits and comes before 300 seconds have passed since the store
  -- is answered with that response: unchanged, the first message's id included, and without a call
  -- of the runtime.
  pub replay :
      (now later : ℕ) (first second : TcpMessage Arg) (between : List (ℕ × TcpMessage Arg))
      (srv : TcpServer Data) (c : InMemoryCache (TcpResponse Data)) (resp : TcpResponse Data)
      (s : S)
      → srv.idempotency_cache ≡ some c
      → srv.guard.config.enable_idempotency ≡ true
      → first.idempotency_key ≢ ""
      → second.idempotency_key ≡ first.idempotency_key
      → All (λ m. m.1.idempotency_key ≢ first.idempotency_key) between
      → length between < c.capacity
      → is_past later (now + 300000000000) ≡ false
      → let (srv', s') =
          handle_messages between (store_idempotency b now first (some resp) srv) s in
        let served = after_limits b later second srv' s' in
        (served.sent ≡ resp ∷ []) × (served.state ≡ s')
  unfolding effective_expire store_idempotency
  replay now later first second between srv c resp s h on key same others few fresh =
      let nonempty : str_eq first.idempotency_key "" ≡ false =
        str_eq-false first.idempotency_key "" key in
      let kept = seek-set_self now first.idempotency_key resp (pos 300000000000) c in
      let stored : IsHeld 1 c.capacity first.idempotency_key
          (record { key = first.idempotency_key; value = resp; expire_at = now + 300000000000 })
          (store_idempotency b now first (some resp) srv) =
        rw (h, nonempty)
          (record {
            cache = Cache.set now first.idempotency_key resp (pos 300000000000) c;
            held = refl;
            near = kept.0;
            room = kept.1;
            on = on;
          }) in
      let after = handle_messages between (store_idempotency b now first (some resp) srv) s in
      after_limits-answers first.idempotency_key _ (1 + length between) c.capacity later second
        after.0 after.1 (rw same nonempty) same fresh
        (handle_messages-IsHeld first.idempotency_key _ 1 c.capacity between _ s others
          (omega arith) stored)
