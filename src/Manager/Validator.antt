-- ===== src/Manager/Validator.antt =====
-- open.go: ConnectionValidator, and what the manager uses of database/sql.
use Prim.Native.String.{◌++◌}
use fluxor_db.Base.{ℕ, zero, suc, ◌+◌, String, Option, none, some}
use fluxor_db.Base.Decimal.{decimal}
use fluxor_db.Base.Int.{ℤ, pos, ◌*ℤ◌, int64}
use fluxor_db.Errors.{Err, message, wrapped}

-- The error of each call, and the state that it leaves.
pub record Pool (Ctx S : Type 0) : Type 0 where
  pub background : Ctx
  pub with_timeout : ℤ → Ctx → S → Ctx
  pub open_pool : String → String → S → S × Option Err
  pub set_limits : ℤ → ℤ → ℤ → ℤ → S → S
  pub ping : Ctx → S → S × Option Err
  pub close_db : S → S × Option Err
  pub conn : Ctx → S → S × Option Err
  pub close_conn : S → S
  pub query_one : Ctx → String → S → S × Option Err  -- QueryRowContext and Scan
  pub sleep : ℤ → S → S

pub record ConnectionValidator : Type 0 where
  pub validation_query : String
  pub timeout : ℤ
  pub max_retries : ℕ
  pub retry_backoff : ℤ

module _ {Ctx S : Type 0} (pool : Pool Ctx S) where
  exhausted : ConnectionValidator → Option Err → Err
  exhausted cv none =
      message ("validation failed after " ++ (decimal cv.max_retries ++ " retries: %!w(<nil>)"))
  exhausted cv (some e) =
      wrapped ("validation failed after " ++ (decimal cv.max_retries ++ " retries: ")) e ""

  -- The loop: `n` turns are left, `i` is its variable, `last` the last error.
  unfoldable pub validate_loop : ConnectionValidator → Ctx → ℕ → ℕ → Option Err → S → S × Option Err
  unfolding exhausted
  validate_loop cv ctx zero i last s = (s, some (exhausted cv last))
  validate_loop cv ctx (suc n) i last s =
      let (s', answer) = pool.query_one ctx cv.validation_query s in
      elim answer [
        | none ↦ (s', none)
        | some e ↦
            validate_loop cv ctx n (i + 1) (some e)
              (pool.sleep (int64 (cv.retry_backoff *ℤ pos (i + 1))) s')
      ]

  unfoldable pub validate : ConnectionValidator → Ctx → S → S × Option Err
  unfolding validate_loop
  validate cv ctx s = validate_loop cv (pool.with_timeout cv.timeout ctx s) cv.max_retries 0 none s
