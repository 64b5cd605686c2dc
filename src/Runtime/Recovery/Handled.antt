-- ===== src/Runtime/Recovery/Handled.antt =====
-- errors.go: what HandleError and RecoverConnection come to, on a runtime that the program can
-- have.
use mathlib.Core.Path.{subst}
use fluxor_db.Base.{
  sym, ◌∙◌, ℕ, ◌⊎◌, inl, inr, ◌≡◌, ◌≢◌, refl, Bool, true, false, Option, none, some, str_eq,
  if◌then◌else◌, Bool-cases, false_not_true, eq_iff,
}
use fluxor_db.Config.{RuntimeConfig}
use fluxor_db.Db.{AdvancedDb}
use fluxor_db.Errors.{
  Err, wrap_error, new_database_error, as_database, is_retryable_error, is_circuit_breaker_error,
}
use fluxor_db.Manager.Validator.{Pool}
use fluxor_db.Runtime.Lifecycle.{
  DbRuntime, nil_dereference, blocked, returned, new_db_runtime, is_connected,
  circuit_breaker_state, with_advanced_db, when_connected, with_db, connect, health_check,
}
use fluxor_db.Runtime.Connected.{Later, connecting, connected_db}
use fluxor_db.Runtime.Recovery.{
  Recovery, checked, verified, reconnected, recover_connection, recovered, waited, handle_error,
  circuit_state_open,
}

module _ {Stmt Other S : Type 0} where
  -- A recovery returns; without an error the runtime is connected, and its error is one that
  -- HandleError recovers from.
  unfoldable pub Recovers : Recovery Stmt Other S → Type 0
  Recovers nil_dereference = ⊥
  Recovers blocked = ⊥
  Recovers (returned (r, s, none)) = is_connected r ≡ true
  Recovers (returned (r, s, some e)) = is_retryable_error e ≡ true

  -- Without an error the health was checked on a runtime that is connected.
  Checks : Recovery Stmt Other S → Type 0
  Checks nil_dereference = ⊥
  Checks blocked = ⊥
  Checks (returned (r, s, none)) = is_connected r ≡ true
  Checks (returned (r, s, some e)) = Unit

  answer-Checks :
      (r : DbRuntime Stmt Other) (s : S) (e : Option Err)
      → is_connected r ≡ true
      → Checks (returned (r, s, e))
  unfolding Checks
  answer-Checks r s none h = h
  answer-Checks r s (some e) h = tt

  branches-Checks :
      (b : Bool) (x y : Recovery Stmt Other S)
      → (b ≡ true → Checks x)
      → Checks y
      → Checks (if b then x else y)
  branches-Checks true x y h h' = h refl
  branches-Checks false x y h h' = h'

  checked-Recovers : (x : Recovery Stmt Other S) → Checks x → Recovers (checked x)
  unfolding checked Recovers Checks wrap_error new_database_error is_retryable_error as_database
  checked-Recovers nil_dereference h = h
  checked-Recovers blocked h = h
  checked-Recovers (returned (r, s, none)) h = h
  checked-Recovers (returned (r, s, some e)) h = refl

module _ {Stmt Other : Type 0} {Ctx S : Type 0} (pool : Pool Ctx S)
    (ping : S → S × Option Err) where
  health-Checks :
      (now : ℕ) (c : RuntimeConfig) (q : DbRuntime Stmt Other) (s : S)
      → Later pool (new_db_runtime now c) q
      → Checks (health_check ping q s)
  unfolding health_check when_connected Checks is_connected
  health-Checks now c q s l =
      branches-Checks q.conn_manager.opened _ _
        (λ is_open.
          let (adb, e) = connected_db pool now c q l is_open in
          subst
            (λ (o : Option (AdvancedDb Stmt)).
              Checks (with_advanced_db o (λ adb. some (adb, (ping s).0, (ping s).1)) q))
            (sym e) (answer-Checks (with_db adb q) (ping s).0 (ping s).1 is_open))
        tt

  verified-Recovers :
      (now : ℕ) (c : RuntimeConfig) (q : DbRuntime Stmt Other) (s : S)
      → Later pool (new_db_runtime now c) q
      → Recovers (verified pool ping q s)
  unfolding verified
  verified-Recovers now c q s l = checked-Recovers _ (health-Checks now c q s l)

  reconnected-Recovers :
      (now : ℕ) (c : RuntimeConfig) (x : DbRuntime Stmt Other × S × Option Err)
      → Later pool (new_db_runtime now c) x.0
      → Recovers (reconnected pool ping x)
  unfolding reconnected Recovers wrap_error new_database_error is_retryable_error as_database
  reconnected-Recovers now c (r, s, none) l = verified-Recovers now c r s l
  reconnected-Recovers now c (r, s, some e) l = refl

  -- RecoverConnection always returns, on every runtime that NewDBRuntime and later calls can leave,
  -- whether it is connected or not: without an error the runtime is connected, and its error is
  -- always one that IsRetryableError accepts.
  pub recover_connection-Recovers :
      (now : ℕ) (c : RuntimeConfig) (q : DbRuntime Stmt Other) (s : S)
      → Later pool (new_db_runtime now c) q
      → Recovers (recover_connection pool ping q s)
  unfolding recover_connection
  recover_connection-Recovers now c q s l = elim (Bool-cases (is_connected q)) [
    | inl is_open ↦ rw is_open (verified-Recovers now c q s l)
    | inr is_closed ↦ rw is_closed (reconnected-Recovers now c (connect pool q s) (connecting l s))
  ]

module _ {Stmt Other S : Type 0} (e : Err) where
  -- HandleError returns. It drops the error only when that is a circuit breaker's and the circuit is
  -- not open any more; else it answers the error itself, or, when the error asks for a recovery, the
  -- error of a recovery that failed, which asks for another.
  unfoldable pub Handles : Recovery Stmt Other S → Type 0
  Handles nil_dereference = ⊥
  Handles blocked = ⊥
  Handles (returned (r, s, none)) =
      (is_circuit_breaker_error e ≡ true) × (circuit_breaker_state r ≢ circuit_state_open)
  Handles (returned (r, s, some f)) =
      (f ≡ e) ⊎ ((is_retryable_error e ≡ true) × (is_retryable_error f ≡ true))

  waited-Handles :
      (x : DbRuntime Stmt Other × S) → is_circuit_breaker_error e ≡ true → Handles (waited e x)
  unfolding waited Handles
  waited-Handles (r, s) h =
      elim (Bool-cases (str_eq (circuit_breaker_state r) circuit_state_open)) [
        | inl is_open ↦ rw (is_open, Handles) (inl refl)
        | inr is_closed ↦
            rw (is_closed, Handles)
              (
                h,
                λ (same : circuit_breaker_state r ≡ circuit_state_open).
                    false_not_true (
                      sym is_closed ∙ (eq_iff (circuit_breaker_state r) circuit_state_open).1 same),
              )
      ]

  recovered-Handles :
      (x : Recovery Stmt Other S)
      → is_retryable_error e ≡ true
      → Recovers x
      → Handles (recovered e x)
  unfolding recovered Handles Recovers is_retryable_error as_database
  recovered-Handles nil_dereference h h' = h'
  recovered-Handles blocked h h' = h'
  recovered-Handles (returned (r, s, none)) h h' = inl refl
  recovered-Handles (returned (r, s, some f)) h h' = inr (h, h')

  branches-Handles :
      (b : Bool) (x y : Recovery Stmt Other S)
      → (b ≡ true → Handles x)
      → Handles y
      → Handles (if b then x else y)
  branches-Handles true x y h h' = h refl
  branches-Handles false x y h h' = h'

module _ {Stmt Other : Type 0} {Ctx S : Type 0} (pool : Pool Ctx S)
    (ping : S → S × Option Err) where
  -- HandleError on an error always returns, on every runtime that NewDBRuntime and later calls can
  -- leave and whatever the other goroutines do in its sleep. It answers nil only for a circuit
  -- breaker's error, and only when the circuit is not open after the sleep; any other answer is the
  -- error itself, or, for a retryable error, the error of a failed recovery, which IsRetryableError
  -- accepts again.
  pub handle_error-Handles :
      (slept : DbRuntime Stmt Other × S → DbRuntime Stmt Other × S) (now : ℕ) (c : RuntimeConfig)
      (q : DbRuntime Stmt Other) (s : S) (e : Err)
      → Later pool (new_db_runtime now c) q
      → Handles e (handle_error pool ping slept q s (some e))
  unfolding handle_error Handles
  handle_error-Handles slept now c q s e l =
      branches-Handles e (is_circuit_breaker_error e) _ _ (waited-Handles e (slept (q, s))) (
        branches-Handles e (is_retryable_error e) _ _
          (λ h. recovered-Handles e _ h (recover_connection-Recovers pool ping now c q s l))
          (inl refl))
