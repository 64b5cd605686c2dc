-- ===== src/Manager/Validated.antt =====
-- open.go: a connection that is given out has answered.
use fluxor_db.Base.{ℕ, zero, suc, ◌+◌, ◌≡◌, refl, sym, Option, none, some, none_not_some, if_both}
use fluxor_db.Base.Int.{pos, ◌*ℤ◌, int64}
use fluxor_db.Errors.{Err}
use fluxor_db.Manager.{ConnectionManager, acquire_connection, received, validated}
use fluxor_db.Manager.Validator.{Pool, ConnectionValidator, validate, validate_loop}

module _ {Ctx S : Type 0} (pool : Pool Ctx S) where
  -- The last thing that happened was an answer to the validation query.
  abbrev pub Answered : ConnectionValidator → S → Type 0
  Answered cv s' = (c : Ctx) × (s : S) × (pool.query_one c cv.validation_query s ≡ (s', none))

  -- A call that reports no error has left such a state.
  abbrev Confirmed : ConnectionValidator → S → Option Err → Type 0
  Confirmed cv s' e = e ≡ none → Answered cv s'

  answer-Confirmed :
      (cv : ConnectionValidator) (ctx : Ctx) (s s' : S) (e : Option Err)
      (again : Err → S × Option Err)
      → pool.query_one ctx cv.validation_query s ≡ (s', e)
      → ((x : Err) → Confirmed cv (again x).0 (again x).1)
      → let r : S × Option Err = elim e [ none ↦ (s', none) | some x ↦ again x ] in
        Confirmed cv r.0 r.1
  answer-Confirmed cv ctx s s' none again eq h = λ _. (ctx, s, eq)
  answer-Confirmed cv ctx s s' (some x) again eq h = h x

  loop-Confirmed :
      (cv : ConnectionValidator) (ctx : Ctx) (n i : ℕ) (last : Option Err) (s : S)
      → let r = validate_loop pool cv ctx n i last s in Confirmed cv r.0 r.1
  unfolding validate_loop
  loop-Confirmed cv ctx zero i last s = λ e. absurd (none_not_some _ (sym e))
  loop-Confirmed cv ctx (suc n) i last s =
      let a = pool.query_one ctx cv.validation_query s in
      let wait = λ (x : S). pool.sleep (int64 (cv.retry_backoff *ℤ pos (i + 1))) x in
      answer-Confirmed cv ctx s a.0 a.1
        (λ x. validate_loop pool cv ctx n (i + 1) (some x) (wait a.0)) refl
        (λ x. loop-Confirmed cv ctx n (i + 1) (some x) (wait a.0))

  validated-Confirmed :
      (now : ℕ) (cm : ConnectionManager) (r : S × Option Err)
      → Confirmed cm.validator r.0 r.1
      → let out = validated pool now cm r in Confirmed cm.validator out.1 out.2
  unfolding validated
  validated-Confirmed now cm (s, some e) h = λ e. absurd (none_not_some _ (sym e))
  validated-Confirmed now cm (s, none) h = h

  received-Confirmed :
      (now : ℕ) (ctx : Ctx) (cm : ConnectionManager) (r : S × Option Err)
      → let out = received pool now ctx cm r in Confirmed cm.validator out.1 out.2
  unfolding received validate
  received-Confirmed now ctx cm (s, some e) = λ e. absurd (none_not_some _ (sym e))
  received-Confirmed now ctx cm (s, none) =
      validated-Confirmed now cm (validate pool cm.validator ctx s) (
        loop-Confirmed cm.validator (pool.with_timeout cm.validator.timeout ctx s)
          cm.validator.max_retries 0 none s)

  abbrev Out : Type 0
  Out = ConnectionManager × S × Option Err

  -- When AcquireConnection gives a connection, the last that the database did was to answer the
  -- validator's query without an error.
  pub acquire-Answered :
      (now : ℕ) (ctx : Ctx) (cm : ConnectionManager) (s : S)
      → (acquire_connection pool now ctx cm s).2 ≡ none
      → Answered cm.validator (acquire_connection pool now ctx cm s).1
  unfolding acquire_connection
  acquire-Answered now ctx cm s =
      if_both (λ (r : Out). Confirmed cm.validator r.1 r.2) cm.opened
        (received-Confirmed now ctx cm (pool.conn ctx s)) (λ e. absurd (none_not_some _ (sym e)))
