-- ===== src/Utils/Outcomes.antt =====
-- utils.go: how a retried function ends.
use fluxor_db.Base.{
  ℕ, zero, suc, ◌+◌, ◌≤◌, ◌≡◌, refl, ap, arith, Option, none, some, List, [], ◌∷◌, length,
  Option-cases, inl, inr,
}
use fluxor_db.Base.Int.{ℤ, pos, ◌*ℤ◌, int64}
use fluxor_db.Errors.{Err}
use fluxor_db.Utils.{retry_loop, with_retry}

-- The first pauses: each is twice the one before, as an int64.
unfoldable pub doublings : ℕ → ℤ → List ℤ
doublings zero backoff = []
doublings (suc n) backoff = backoff ∷ doublings n (int64 (backoff *ℤ pos 2))

module _ {S : Type 0} (max_retries : ℕ) (interrupted : ℕ → Option Err)
    (fn : S → S × Option Err) where
  loop-waits :
      (left attempt : ℕ) (backoff : ℤ) (answer : S × Option Err)
      → let r = retry_loop max_retries interrupted fn left attempt backoff answer in
        (r.calls ≡ length r.waited + 1)
        × (r.calls ≤ left + 1)
        × (r.waited ≡ doublings (length r.waited) backoff)
  unfolding retry_loop doublings
  loop-waits zero attempt backoff (s, none) = (refl, omega arith, refl)
  loop-waits (suc left) attempt backoff (s, none) = (refl, omega arith, refl)
  loop-waits zero attempt backoff (s, some e) = (refl, omega arith, refl)
  loop-waits (suc left) attempt backoff (s, some e) =
      elim (Option-cases (interrupted (attempt + 1))) [
        | inl on ↦
            let (calls, few, same) =
              loop-waits left (attempt + 1) (int64 (backoff *ℤ pos 2)) (fn s) in
            rw (on, retry_loop)
              (omega (arith, calls), omega (arith, few), ap (λ l. backoff ∷ l) same)
        | inr (x, off) ↦ rw (off, retry_loop) (refl, omega arith, refl)
      ]

  -- WithRetry with a number of retries that is not negative returns; it has called the function
  -- once more than it has paused, at most one time more than that number, and each pause was twice
  -- the one before, as an int64, the first one being the given back-off.
  pub with_retry-waits :
      (backoff : ℤ) (s : S)
      → let r = with_retry max_retries interrupted fn backoff s in
        (r.calls ≡ length r.waited + 1)
        × (r.calls ≤ max_retries + 1)
        × (r.waited ≡ doublings (length r.waited) backoff)
  unfolding with_retry
  with_retry-waits backoff s = loop-waits max_retries 0 backoff (fn s)
