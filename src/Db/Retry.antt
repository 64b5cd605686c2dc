-- ===== src/Db/Retry.antt =====
-- db.go, RetryPolicy, retryExec and retryQuery.
use Prim.Native.String.{◌++◌}
use fluxor_db.Base.{
  ℕ, zero, suc, ◌+◌, String, Bool, true, false, ◌||◌, Option, none, some, List, [], ◌∷◌,
  if◌then◌else◌,
}
use fluxor_db.Base.Decimal.{decimal}
use fluxor_db.Base.Int.{ℤ, pos, pos_part, is_pos, ltb_ℤ}
use fluxor_db.Errors.{Err, Result, ok, err, deadline_exceeded, canceled, wrapped, is_same}
use fluxor_db.Db.Config.{DbAdvancedConfig}

-- The multiplier is 2.0; its product is the argument `scale` below.
pub record RetryPolicy : Type 0 where
  pub max_retries : ℕ
  pub initial_backoff : ℤ
  pub max_backoff : ℤ
  pub retryable_errors : List Err

unfoldable pub new_retry_policy : Option DbAdvancedConfig → RetryPolicy
new_retry_policy none = record {
  max_retries = 3;
  initial_backoff = pos 100000000;
  max_backoff = pos 5000000000;
  retryable_errors = [];
}
new_retry_policy (some c) = record {
  max_retries = if is_pos c.max_retries then pos_part c.max_retries else 3;
  initial_backoff = if is_pos c.retry_backoff then c.retry_backoff else pos 100000000;
  max_backoff = pos 5000000000;
  retryable_errors = [];
}

is_listed : Err → List Err → Bool
is_listed e [] = false
is_listed e (r ∷ rs) = is_same e r || is_listed e rs

unfoldable pub should_retry : RetryPolicy → Option Err → Bool
unfolding is_listed
should_retry rp none = false
should_retry rp (some e) =
    is_listed e rp.retryable_errors || (is_same e deadline_exceeded || is_same e canceled)

-- What a retried call leaves: the database, the result, the back-offs that were waited for, latest
-- last, and the number of calls that were made.
pub record Retried (S A : Type 0) : Type 0 where
  pub state : S
  pub result : Result A
  pub waited : List ℤ
  pub calls : ℕ

module _ (scale : ℤ → ℤ) {S A : Type 0} (word : String) (rp : RetryPolicy)
    (interrupted : ℕ → Option Err) (call : S → S × Result A) where
  -- fmt.Errorf("exec failed after %d attempts: %w", MaxRetries+1, lastErr)
  abbrev pub exhausted : Err → Err
  exhausted e =
      wrapped (word ++ " failed after " ++ decimal (rp.max_retries + 1) ++ " attempts: ") e ""

  unfoldable pub next_backoff : ℤ → ℤ
  next_backoff backoff =
      let b = scale backoff in if ltb_ℤ rp.max_backoff b then rp.max_backoff else b

  -- One more wait, in front of what follows.
  abbrev pub after_wait : ℤ → Retried S A → Retried S A
  after_wait backoff r = record r { waited = backoff ∷ r.waited }

  abbrev pub after_call : Retried S A → Retried S A
  after_call r = record r { calls = suc r.calls }

  abbrev pub stop : S → Result A → Retried S A
  stop s r = record { state = s; result = r; waited = []; calls = 0 }

  -- The loop, after the call of an attempt has answered; `left` attempts are left.
  unfoldable pub retry_loop : ℕ → ℕ → ℤ → S × Result A → Retried S A
  retry_loop left attempt backoff (s, ok a) = stop s (ok a)
  retry_loop zero attempt backoff (s, err e) = stop s (err (exhausted e))
  retry_loop (suc left) attempt backoff (s, err e) = elim (should_retry rp (some e)) [
    | false ↦ stop s (err (exhausted e))
    | true ↦ elim (interrupted (attempt + 1)) [
      | some x ↦ stop s (err x)
      | none ↦
          after_wait backoff
            (after_call (retry_loop left (attempt + 1) (next_backoff backoff) (call s)))
    ]
  ]

  unfoldable pub retry : S → Retried S A
  unfolding retry_loop
  retry s = after_call (retry_loop rp.max_retries 0 rp.initial_backoff (call s))
