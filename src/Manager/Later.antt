-- ===== src/Manager/Later.antt =====
-- open.go: what a manager can become, and what stays true of its leak detector.
use mathlib.Core.Path.{subst}
use mathlib.Core.Option.{some-injective}
use fluxor_db.Base.{ℕ, ◌≡◌, refl, Option, none, some, if_both, none_not_some}
use fluxor_db.Errors.{Err}
use fluxor_db.Manager.{
  ConnectionManager, LeakDetector, start_detector, stop_detector, track_connection, open_db,
  connected, pinged, warmup_connections, acquire_connection, validated, received,
  release_connection, close_db, close_pool, closed, closes,
}
use fluxor_db.Manager.Validator.{Pool}

module _ {Ctx S : Type 0} (pool : Pool Ctx S) where
  -- What a manager can become by calls that do not panic.
  pub data Later (cm : ConnectionManager) : ConnectionManager → Type 0 where
    unchanged : Later cm cm
    opening : {m : ConnectionManager} → Later cm m → (s : S) → Later cm (open_db pool m s).0
    warming :
        {m : ConnectionManager} → Later cm m → (s : S) → Later cm (warmup_connections pool m s).0
    acquiring :
        {m : ConnectionManager}
        → Later cm m
        → (t : ℕ) (ctx : Ctx) (s : S) → Later cm (acquire_connection pool t ctx m s).0
    releasing :
        {m : ConnectionManager} → Later cm m → (s : S) → Later cm (release_connection pool m s).0
    closing :
        {m : ConnectionManager}
        → Later cm m
        → (s : S) {r : ConnectionManager × S × Option Err} → close_db pool m s ≡ some r
        → Later cm r.0

-- What holds of the detector, and stays when it is started or stopped, holds later.
module _ {Ctx S : Type 0} (pool : Pool Ctx S) (P : Option LeakDetector → Type 0)
    (starts : (d : Option LeakDetector) → P d → P (start_detector d))
    (stops : (d d' : Option LeakDetector) → stop_detector d ≡ some d' → P d → P d') where
  Kept : ConnectionManager × S × Option Err → Type 0
  Kept r = P r.0.leak_detector

  pinged-Kept :
      (cm : ConnectionManager) (r : S × Option Err) → P cm.leak_detector → Kept (pinged pool cm r)
  unfolding pinged Kept
  pinged-Kept cm (s, some e) h = h
  pinged-Kept cm (s, none) h =
      if_both P cm.config.enable_leak_detection (starts cm.leak_detector h) h

  connected-Kept :
      (cm : ConnectionManager) (r : S × Option Err)
      → P cm.leak_detector
      → Kept (connected pool cm r)
  unfolding connected Kept
  connected-Kept cm (s, some e) h = h
  connected-Kept cm (s, none) h = pinged-Kept cm _ h

  open-Kept : (cm : ConnectionManager) (s : S) → P cm.leak_detector → Kept (open_db pool cm s)
  unfolding open_db Kept
  open-Kept cm s h = if_both Kept cm.opened h (connected-Kept _ _ h)

  warmup-Kept :
      (cm : ConnectionManager) (s : S)
      → P cm.leak_detector
      → P (warmup_connections pool cm s).0.leak_detector
  unfolding warmup_connections
  warmup-Kept cm s h = if_both (λ (r : ConnectionManager × S). P r.0.leak_detector) _ h h

  validated-Kept :
      (t : ℕ) (cm : ConnectionManager) (r : S × Option Err)
      → P cm.leak_detector
      → Kept (validated pool t cm r)
  unfolding validated Kept track_connection
  validated-Kept t cm (s, some e) h = h
  validated-Kept t cm (s, none) h =
      if_both (λ (m : ConnectionManager). P m.leak_detector) cm.config.enable_leak_detection h h

  received-Kept :
      (t : ℕ) (ctx : Ctx) (cm : ConnectionManager) (r : S × Option Err)
      → P cm.leak_detector
      → Kept (received pool t ctx cm r)
  unfolding received Kept
  received-Kept t ctx cm (s, some e) h = h
  received-Kept t ctx cm (s, none) h = validated-Kept t cm _ h

  acquire-Kept :
      (t : ℕ) (ctx : Ctx) (cm : ConnectionManager) (s : S)
      → P cm.leak_detector
      → Kept (acquire_connection pool t ctx cm s)
  unfolding acquire_connection Kept
  acquire-Kept t ctx cm s h = if_both Kept cm.opened (received-Kept t ctx cm _ h) h

  closed-Kept :
      (cm : ConnectionManager) (r : S × Option Err) → P cm.leak_detector → Kept (closed pool cm r)
  unfolding closed Kept
  closed-Kept cm (s, some e) h = h
  closed-Kept cm (s, none) h = h

  close_pool-Kept :
      (cm : ConnectionManager) (s : S) → P cm.leak_detector → Kept (close_pool pool cm s)
  unfolding close_pool Kept
  close_pool-Kept cm s h = if_both Kept cm.opened (closed-Kept cm _ h) h

  stopped-Kept :
      (cm : ConnectionManager) (s : S) (r : ConnectionManager × S × Option Err)
      (o : Option (Option LeakDetector))
      → stop_detector cm.leak_detector ≡ o
      → closes pool cm s o ≡ some r
      → ((d : Option LeakDetector) → stop_detector cm.leak_detector ≡ some d → P d)
      → Kept r
  stopped-Kept cm s r none e e' h = absurd (none_not_some r e')
  stopped-Kept cm s r (some d) e e' h =
      subst Kept (some-injective _ r e')
        (close_pool-Kept (record cm { leak_detector = d }) s (h d e))

  pub close-Kept :
      (cm : ConnectionManager) (s : S) (r : ConnectionManager × S × Option Err)
      → close_db pool cm s ≡ some r
      → ((d : Option LeakDetector) → stop_detector cm.leak_detector ≡ some d → P d)
      → P r.0.leak_detector
  unfolding close_db Kept
  close-Kept cm s r e h = stopped-Kept cm s r (stop_detector cm.leak_detector) refl e h

  pub kept : {cm m : ConnectionManager} → Later pool cm m → P cm.leak_detector → P m.leak_detector
  unfolding release_connection Kept
  kept unchanged h = h
  kept (opening {m} l s) h = open-Kept m s (kept l h)
  kept (warming {m} l s) h = warmup-Kept m s (kept l h)
  kept (acquiring {m} l t ctx s) h = acquire-Kept t ctx m s (kept l h)
  kept (releasing {m} l s) h = kept l h
  kept (closing {m} l s {r} e) h =
      close-Kept m s r e (λ d e'. stops m.leak_detector d e' (kept l h))
