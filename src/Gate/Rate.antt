-- ===== src/Gate/Rate.antt =====
-- gate.go, RateLimiter. `added elapsed rate` is `int64(elapsed.Seconds() * float64(rate))`, the
-- floating-point product that this development leaves open.
use fluxor_db.Base.{
  ℕ, ◌+◌, ◌<◌, ◌≤◌, ◌≡◌, List, [], ◌∷◌, Option, none, some, ◌∙◌, arith, if◌then◌else◌,
}
use fluxor_db.Base.Int.{
  ℤ, pos, pos_part, sub_ℕ, ltb_ℤ, is_pos, int64, int64_add, int64_down, IsInt64, ◌+ℤ◌, ◌-ℤ◌, ◌*ℤ◌,
  ◌≤ℤ◌, two63,
}
use fluxor_db.Errors.{Err, rate_limit_exceeded}
use fluxor_db.Gate.Config.{GateConfig}

pub record RateLimiter : Type 0 where
  pub tokens : ℤ
  pub max_tokens : ℤ
  pub refill_rate : ℤ
  pub last_refill : ℕ

full : ℤ → ℤ → ℕ → RateLimiter
full tokens rate now = record {
  tokens = tokens;
  max_tokens = tokens;
  refill_rate = rate;
  last_refill = now;
}

unfoldable pub new_rate_limiter : ℕ → Option GateConfig → RateLimiter
unfolding full
new_rate_limiter now none = full (pos 1000) (pos 100) now
new_rate_limiter now (some c) =
    if is_pos c.max_requests_per_second
    then full (int64 (c.max_requests_per_second *ℤ pos 10)) c.max_requests_per_second now
    else full (pos 1000) (pos 100) now

-- The function min at the end of the file.
unfoldable pub min : ℤ → ℤ → ℤ
min a b = if ltb_ℤ a b then a else b

unfoldable pub refill : ℤ → ℕ → RateLimiter → RateLimiter
unfolding min
refill tokens_to_add now rl =
    if is_pos tokens_to_add
    then record rl {
      tokens = min (int64 (rl.tokens +ℤ tokens_to_add)) rl.max_tokens;
      last_refill = now;
    }
    else rl

unfoldable pub take_token : RateLimiter → RateLimiter × Option Err
take_token rl =
    if is_pos rl.tokens
    then (record rl { tokens = int64 (rl.tokens -ℤ pos 1) }, none)
    else (rl, some rate_limit_exceeded)

module _ (added : ℤ → ℤ → ℤ) where
  unfoldable pub to_add : ℕ → RateLimiter → ℤ
  to_add now rl = added (sub_ℕ now rl.last_refill) rl.refill_rate

  unfoldable pub allow : ℕ → RateLimiter → RateLimiter × Option Err
  unfolding to_add refill take_token
  allow now rl = take_token (refill (to_add now rl) now rl)

-- Between no token and a full bucket.
pub record IsFilled (rl : RateLimiter) : Type 0 where
  pub at_least : pos 0 ≤ℤ rl.tokens
  pub at_most : rl.tokens ≤ℤ rl.max_tokens
  pub fits : IsInt64 rl.max_tokens

refill-IsFilled :
    (n : ℤ) (now : ℕ) (rl : RateLimiter)
    → IsFilled rl
    → pos_part n + pos_part rl.max_tokens < two63
    → IsFilled (refill n now rl)
unfolding refill
refill-IsFilled n now rl h small = ground (arith, int64_add rl.tokens n)

take_token-IsFilled : (rl : RateLimiter) → IsFilled rl → IsFilled (take_token rl).0
unfolding take_token
take_token-IsFilled rl h = ground (arith, int64_down rl.tokens)

-- What one call grants.
abbrev granted : Option Err → ℕ
granted none = 1
granted (some e) = 0

-- What a call grants is taken from the bucket.
take_token-granted :
    (rl : RateLimiter)
    → IsFilled rl
    → granted (take_token rl).1 + pos_part (take_token rl).0.tokens ≡ pos_part rl.tokens
unfolding take_token
take_token-granted rl h = ground (arith, int64_down rl.tokens)

refill-le :
    (n : ℤ) (now : ℕ) (rl : RateLimiter)
    → IsFilled rl
    → pos_part n + pos_part rl.max_tokens < two63
    → pos_part (refill n now rl).tokens ≤ pos_part rl.tokens + pos_part n
unfolding refill
refill-le n now rl h small = ground (arith, int64_add rl.tokens n)

take_token-max : (rl : RateLimiter) → (take_token rl).0.max_tokens ≡ rl.max_tokens
unfolding take_token
take_token-max rl = ground arith

refill-max : (n : ℤ) (now : ℕ) (rl : RateLimiter) → (refill n now rl).max_tokens ≡ rl.max_tokens
unfolding refill
refill-max n now rl = ground arith

module _ (added : ℤ → ℤ → ℤ) where
  -- The calls at the given times: the limiter after them, what they granted, what was put in.
  unfoldable pub run : List ℕ → RateLimiter → RateLimiter × ℕ × ℕ
  run [] rl = (rl, 0, 0)
  run (now ∷ times) rl =
      let (rl', refused) = allow added now rl in
      let (last, count, put) = run times rl' in
      (last, granted refused + count, pos_part (to_add added now rl) + put)

  -- The refill of a call and a full bucket are together an int64.
  abbrev pub IsBounded : ℕ → RateLimiter → Type 0
  IsBounded now rl = pos_part (to_add added now rl) + pos_part rl.max_tokens < two63

  -- The refills of the calls at the given times.
  unfoldable pub IsSmall : List ℕ → RateLimiter → Type 0
  IsSmall [] rl = Unit
  IsSmall (now ∷ times) rl = IsBounded now rl × IsSmall times (allow added now rl).0

  pub allow-IsFilled :
      (now : ℕ) (rl : RateLimiter)
      → IsFilled rl
      → IsBounded now rl
      → IsFilled (allow added now rl).0 × ((allow added now rl).0.max_tokens ≡ rl.max_tokens)
  unfolding allow
  allow-IsFilled now rl h small =
      let n = to_add added now rl in
      let r = refill n now rl in
      (
        take_token-IsFilled r (refill-IsFilled n now rl h small),
        take_token-max r ∙ refill-max n now rl,
      )

  allow-granted :
      (now : ℕ) (rl : RateLimiter)
      → IsFilled rl
      → IsBounded now rl
      → granted (allow added now rl).1 + pos_part (allow added now rl).0.tokens
        ≤ pos_part rl.tokens + pos_part (to_add added now rl)
  unfolding allow
  allow-granted now rl h small =
      let n = to_add added now rl in
      omega (
        arith,
        take_token-granted (refill n now rl) (refill-IsFilled n now rl h small),
        refill-le n now rl h small,
      )

  -- Over any calls of the rate limiter's Allow at any times, from a limiter whose tokens are
  -- between zero and the maximum, and with each refill of these calls too small to overflow an int64
  -- on top of the maximum, the tokens stay in that range, and the calls granted and the tokens left
  -- are together at most the tokens at first and those that the calls refilled.
  pub run-conserves :
      (times : List ℕ) (rl : RateLimiter)
      → IsFilled rl
      → IsSmall times rl
      → let (last, count, put) = run times rl in
        IsFilled last × (count + pos_part last.tokens ≤ pos_part rl.tokens + put)
  unfolding run IsSmall
  run-conserves [] rl h small = (h, omega arith)
  run-conserves (now ∷ times) rl h small =
      let (filled, same) = allow-IsFilled now rl h small.0 in
      let n = to_add added now rl in
      let (last_filled, rest) = run-conserves times (allow added now rl).0 filled small.1 in
      (last_filled, omega (arith, allow-granted now rl h small.0))
