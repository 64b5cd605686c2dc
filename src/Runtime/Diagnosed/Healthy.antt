-- ===== src/Runtime/Diagnosed/Healthy.antt =====
-- utils.go: when CheckHealth finds a runtime healthy.
use mathlib.Core.Path.{subst}
use fluxor_db.Base.{
  none_not_some, ℕ, ◌≡◌, ◌≢◌, ◌∙◌, ◌↔◌, refl, sym, String, Bool, true, false, Option, none, some,
  str_eq, eq_iff, if◌then◌else◌, Bool-cases, inl, inr, false_not_true,
}
use fluxor_db.Base.Int.{leb_ℤ}
use fluxor_db.Config.{RuntimeConfig}
use fluxor_db.Db.{AdvancedDb}
use fluxor_db.Errors.{Err}
use fluxor_db.Manager.Validator.{Pool}
use fluxor_db.Runtime.Connected.{Later, connected_db}
use fluxor_db.Runtime.Diagnosed.{check_runtime, examined, stats}
use fluxor_db.Runtime.Lifecycle.{
  DbRuntime, Ended, returned, new_db_runtime, is_connected, circuit_breaker_state, with_db,
  with_advanced_db, when_connected, health_check,
}
use fluxor_db.Tcp.Protocol.{StatsResult}
use fluxor_db.Utils.{HealthStatus, check_health}

-- The circuit is not open, and the pool may open another connection.
abbrev pub Serves : String → StatsResult → Type 0
Serves state t = (state ≢ "open") × (leb_ℤ t.max_open_connections t.open_connections ≡ false)

check_health-Serves :
    (now : ℕ) (state : String) (t : StatsResult)
    → ((check_health now none state t).healthy ≡ true) ↔ Serves state t
unfolding check_health
check_health-Serves now state t = elim (Bool-cases (str_eq state "open")) [
  | inl is_open ↦
      rw is_open
        (λ h. absurd (false_not_true h), λ h. absurd (h.0 ((eq_iff state "open").0 is_open)))
  | inr is_closed ↦ elim (Bool-cases (leb_ℤ t.max_open_connections t.open_connections)) [
    | inl full ↦
        rw (is_closed, full)
          (λ h. absurd (false_not_true h), λ h. absurd (false_not_true (sym h.1)))
    | inr room ↦
        rw (is_closed, room)
          (
            λ _. (
              λ (same : state ≡ "open").
                  false_not_true (sym is_closed ∙ (eq_iff state "open").1 same),
              refl,
            ),
            λ _. refl,
          )
  ]
]

module _ {Stmt Other S : Type 0} (pool_stats : S → StatsResult) (ping : S → S × Option Err)
    (now : ℕ) (q : DbRuntime Stmt Other) (s : S) where
  -- A check of the runtime `q` ends, and calls it healthy when all that it looks at is well.
  Judges : Ended (DbRuntime Stmt Other × S × HealthStatus) → Type 0
  Judges x =
      (q' : DbRuntime Stmt Other) × (s' : S) × (h : HealthStatus) × (x ≡ returned (q', s', h))
      × ((h.healthy ≡ true) ↔ (
          (is_connected q ≡ true)
          × ((ping s).1 ≡ none)
          × (circuit_breaker_state q' ≢ "open")
          × (leb_ℤ (pool_stats (ping s).0).max_open_connections
                (pool_stats (ping s).0).open_connections
              ≡ false)))

  branches-Judges :
      (b : Bool) (x y : Ended (DbRuntime Stmt Other × S × Option Err))
      → (b ≡ true → Judges (examined pool_stats now x))
      → (b ≡ false → Judges (examined pool_stats now y))
      → Judges (examined pool_stats now (if b then x else y))
  branches-Judges true x y h k = h refl
  branches-Judges false x y h k = k refl

  answer-Judges :
      (adb : AdvancedDb Stmt) (e : Option Err)
      → q.conn_manager.opened ≡ true
      → (ping s).1 ≡ e
      → Judges (examined pool_stats now (returned (with_db adb q, (ping s).0, e)))
  unfolding Judges examined stats when_connected is_connected check_health
  answer-Judges adb (some e) is_open answer = (
    with_db adb q,
    (ping s).0,
    _,
    refl,
    (λ h. absurd (false_not_true h), λ h. absurd (none_not_some e (sym h.1 ∙ answer))),
  )
  answer-Judges adb none is_open answer =
      let serves =
        check_health-Serves now (circuit_breaker_state (with_db adb q)) (pool_stats (ping s).0) in
      (
        with_db adb q,
        (ping s).0,
        check_health now none (circuit_breaker_state (with_db adb q)) (pool_stats (ping s).0),
        rw is_open refl,
        (λ h. (is_open, answer, (serves.0 h).0, (serves.0 h).1), λ h. serves.1 (h.2, h.3)),
      )

  check-Judges :
      ((is_open : q.conn_manager.opened ≡ true)
        → (adb : AdvancedDb Stmt) × (q.advanced_db ≡ some adb))
      → Judges (check_runtime pool_stats ping now q s)
  unfolding check_runtime health_check when_connected Judges is_connected examined check_health
  check-Judges has =
      branches-Judges q.conn_manager.opened _ _
        (λ is_open.
          let (adb, e) = has is_open in
          subst
            (λ (o : Option (AdvancedDb Stmt)). Judges (
              examined pool_stats now
                (with_advanced_db o (λ adb. some (adb, (ping s).0, (ping s).1)) q)))
            (sym e) (answer-Judges adb (ping s).1 is_open refl))
        (λ is_closed. (
          q,
          s,
          _,
          refl,
          (λ h. absurd (false_not_true h), λ h. absurd (false_not_true (sym is_closed ∙ h.0))),
        ))

-- CheckHealth always returns, on every runtime that NewDBRuntime and later calls can leave, and it
-- calls the runtime healthy exactly when this is connected, the database answers the ping, the
-- circuit is not open, and fewer connections are open than the pool's maximum, by its statistics
-- after the ping.
pub check_runtime-Healthy :
    {Stmt Other Ctx S : Type 0} (pool : Pool Ctx S) (pool_stats : S → StatsResult)
    (ping : S → S × Option Err) (made now : ℕ) (c : RuntimeConfig) (q : DbRuntime Stmt Other)
    (s : S)
    → Later pool (new_db_runtime made c) q
    → let t = pool_stats (ping s).0 in
      (q' : DbRuntime Stmt Other) × (s' : S) × (h : HealthStatus) × (check_runtime pool_stats ping
          now q s
        ≡ returned (q', s', h))
      × ((h.healthy ≡ true) ↔ (
          (is_connected q ≡ true)
          × ((ping s).1 ≡ none)
          × (circuit_breaker_state q' ≢ "open")
          × (leb_ℤ t.max_open_connections t.open_connections ≡ false)))
unfolding Judges
check_runtime-Healthy pool pool_stats ping made now c q s l =
    check-Judges pool_stats ping now q s (connected_db pool made c q l)
