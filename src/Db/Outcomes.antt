-- ===== src/Db/Outcomes.antt =====
-- db.go: how often a statement is tried, how long the pauses are, and what is counted.
use fluxor_db.Base.{
  ℕ, zero, suc, ◌+◌, ◌≤◌, ◌≡◌, ap, refl, String, false, Option, none, some, length, arith, All,
  Bool-cases, Option-cases, inl, inr,
}
use fluxor_db.Base.Int.{ℤ, pos, ◌≤ℤ◌, int64, ◌+ℤ◌}
use fluxor_db.Errors.{Err, Result, ok, err}
use fluxor_db.Db.Metrics
use fluxor_db.Db.Metrics.{DbMetrics}
use fluxor_db.Db.Retry.{RetryPolicy, should_retry, retry_loop, retry, next_backoff, exhausted}
use fluxor_db.Db.{AdvancedDb, Moment, exec, query}

module _ (scale : ℤ → ℤ) {S A : Type 0} (word : String) (rp : RetryPolicy)
    (interrupted : ℕ → Option Err) (call : S → S × Result A) where
  loop-calls :
      (left attempt : ℕ) (b : ℤ) (r : S × Result A)
      → (retry_loop scale word rp interrupted call left attempt b r).calls ≤ left
  unfolding retry_loop
  loop-calls left attempt b (s, ok a) = omega arith
  loop-calls zero attempt b (s, err e) = omega arith
  loop-calls (suc left) attempt b (s, err e) = ground (
    arith,
    loop-calls left (attempt + 1) (next_backoff scale word rp interrupted call b) (call s),
  )

  next_backoff-le : (b : ℤ) → next_backoff scale word rp interrupted call b ≤ℤ rp.max_backoff
  unfolding next_backoff
  next_backoff-le b = ground arith

  loop-waited :
      (left attempt : ℕ) (b : ℤ) (r : S × Result A)
      → b ≤ℤ rp.max_backoff
      → let w = retry_loop scale word rp interrupted call left attempt b r in
        All (λ x. x ≤ℤ rp.max_backoff) w.waited × (length w.waited ≡ w.calls)
  unfolding retry_loop
  loop-waited left attempt b (s, ok a) h = (tt, refl)
  loop-waited zero attempt b (s, err e) h = (tt, refl)
  loop-waited (suc left) attempt b (s, err e) h =
      let b' = next_backoff scale word rp interrupted call b in
      let (small, pauses) = loop-waited left (attempt + 1) b' (call s) (next_backoff-le b) in
      elim (Bool-cases (should_retry rp (some e))) [
        | inl again ↦ elim (Option-cases (interrupted (attempt + 1))) [
          | inl free ↦ rw (again, free, retry_loop) ((h, small), ap suc pauses)
          | inr (x, stopped) ↦ rw (again, stopped, retry_loop) (tt, refl)
        ]
        | inr enough ↦ rw (enough, retry_loop) (tt, refl)
      ]

  -- With an initial back-off of at most the maximum, a retried statement returns after at least one
  -- and at most MaxRetries + 1 calls of the database, with one pause between two calls, and no
  -- pause is above the maximum.
  pub retry_bounds :
      (s : S)
      → rp.initial_backoff ≤ℤ rp.max_backoff
      → let r = retry scale word rp interrupted call s in
        (1 ≤ r.calls)
        × (r.calls ≤ rp.max_retries + 1)
        × (length r.waited + 1 ≡ r.calls)
        × All (λ x. x ≤ℤ rp.max_backoff) r.waited
  unfolding retry
  retry_bounds s h =
      let calls = loop-calls rp.max_retries 0 rp.initial_backoff (call s) in
      let (small, pauses) = loop-waited rp.max_retries 0 rp.initial_backoff (call s) h in
      (omega arith, omega (arith, calls), omega (arith, pauses), small)

  -- When the first call fails with an error that is not to be retried, the retried statement
  -- returns after that one call, with an error whose text speaks of MaxRetries + 1 attempts.
  pub retry_gives_up :
      (s s' : S) (e : Err)
      → call s ≡ (s', err e)
      → should_retry rp (some e) ≡ false
      → let r = retry scale word rp interrupted call s in
        (r.calls ≡ 1)
        × (r.state ≡ s')
        × (r.result ≡ err (exhausted scale word rp interrupted call e))
  unfolding retry
  retry_gives_up s s' e h k = rw h (give_up rp.max_retries)
    where
      give_up :
          (left : ℕ)
          → let r =
              retry_loop scale word rp interrupted call left 0 rp.initial_backoff (s', err e) in
            (suc r.calls ≡ 1)
            × (r.state ≡ s')
            × (r.result ≡ err (exhausted scale word rp interrupted call e))
      give_up zero = unfold retry_loop in (refl, refl, refl)
      give_up (suc left) = unfold retry_loop in rw (k, retry_loop) (refl, refl, refl)

-- The counters after a call that came back: one more success, no more failures.
abbrev pub CountedAsSuccess :
    {Stmt S A : Type 0} → DbMetrics → Option (AdvancedDb Stmt × S × Result A) → Type 0
CountedAsSuccess m none = Unit
CountedAsSuccess m (some (adb, s, r)) =
    (adb.metrics.failed_queries ≡ m.failed_queries)
    × (adb.metrics.successful_queries ≡ int64 (m.successful_queries +ℤ pos 1))
    × (adb.metrics.total_queries ≡ int64 (m.total_queries +ℤ pos 1))

module _ (added : ℤ → ℤ → ℤ) (scale : ℤ → ℤ) {Stmt S A : Type 0} where
  -- When Exec or Query comes back, with a result or with an error, the metrics have one success and
  -- one query more, and no failure more.
  pub exec-CountedAsSuccess :
      (call : S → S × Result A) (m : Moment) (adb : AdvancedDb Stmt) (s : S)
      → CountedAsSuccess adb.metrics (exec added scale call m adb s)
        × CountedAsSuccess adb.metrics (query added scale call m adb s)
  unfolding exec query Metrics.record_query
  exec-CountedAsSuccess call m adb s = (ground arith, ground arith)
