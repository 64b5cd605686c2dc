-- ===== src/Errors.antt =====
-- errors.go: the error values of the whole program, the database error with its codes, and the
-- classification of errors.
--
-- A Go `error` is an `Err`; a nil error is the `none` of an `Option Err`. Errors that other
-- packages return (drivers, the operating system, encoding/json) are `external`, with an identity
-- and their text. `wrapped` is fmt.Errorf with %w: the text before, the cause, the text after.
pub mod Code
pub mod Classes
use Prim.Native.String.{◌++◌}
use fluxor_db.Base.{
  ℕ, String, Bool, true, false, Option, none, some, List, [], ◌∷◌, ◌||◌, ◌==◌, str_eq,
  if◌then◌else◌,
}

pub data Err : Type 0 where
  circuit_open rate_limit_exceeded connection_limit : Err
  deadline_exceeded canceled : Err
  external : ℕ → String → Err
  message : String → Err
  wrapped : String → Err → String → Err
  database : String → String → Err → Err
  database_root : String → String → Err

-- What a fallible function returns.
pub data Result {ℓ} (A : Type ℓ) : Type ℓ where
  ok : A → Result A
  err : Err → Result A

infixl 5 ◌>>=◌
abbrev pub ◌>>=◌ {ℓ κ} : {A : Type ℓ} {B : Type κ} → Result A → (A → Result B) → Result B
ok a >>= f = f a
err e >>= f = err e

-- NewDatabaseError: a nil cause is the constructor without one.
unfoldable pub new_database_error : String → String → Option Err → Err
new_database_error code text none = database_root code text
new_database_error code text (some e) = database code text e

-- The method Error of every error value.
unfoldable pub error_text : Err → String
error_text circuit_open = "circuit breaker is open"
error_text rate_limit_exceeded = "rate limit exceeded"
error_text connection_limit = "connection limit exceeded"
error_text deadline_exceeded = "context deadline exceeded"
error_text canceled = "context canceled"
error_text (external _ text) = text
error_text (message text) = text
error_text (wrapped before e after) = before ++ error_text e ++ after
error_text (database code text e) = code ++ ": " ++ text ++ " (" ++ error_text e ++ ")"
error_text (database_root code text) = code ++ ": " ++ text

-- The method Unwrap, and the cause of a %w.
unfoldable pub unwrap : Err → Option Err
unwrap (wrapped _ e _) = some e
unwrap (database _ _ e) = some e
unwrap _ = none

-- errors.As(err, &dbErr): the code of the first database error in the chain of causes.
unfoldable pub as_database : Err → Option String
as_database (wrapped _ e _) = as_database e
as_database (database code _ _) = some code
as_database (database_root code _) = some code
as_database _ = none

abbrev has_code : (String → Bool) → Option String → Bool
has_code p none = false
has_code p (some code) = p code

unfoldable pub is_retryable_error : Err → Bool
unfolding as_database
is_retryable_error e =
    has_code (λ code. str_eq code Code.timeout || str_eq code Code.connection_failed)
      (as_database e)

unfoldable pub is_circuit_breaker_error : Err → Bool
unfolding as_database
is_circuit_breaker_error e =
    has_code (λ code. str_eq code Code.circuit_breaker_open) (as_database e)

unfoldable pub wrap_error : String → String → Option Err → Option Err
unfolding new_database_error
wrap_error code text none = none
wrap_error code text (some e) = some (new_database_error code text (some e))

-- `err == other` on the values that are compared so: package variables and errors of others. A
-- value that fmt.Errorf or NewDatabaseError made is no variable of any package.
unfoldable pub is_same : Err → Err → Bool
is_same circuit_open circuit_open = true
is_same rate_limit_exceeded rate_limit_exceeded = true
is_same connection_limit connection_limit = true
is_same deadline_exceeded deadline_exceeded = true
is_same canceled canceled = true
is_same (external i _) (external j _) = i == j
is_same _ _ = false
