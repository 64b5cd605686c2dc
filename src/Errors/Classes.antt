-- ===== src/Errors/Classes.antt =====
-- errors.go: the classes of errors, through the chain of causes.
use fluxor_db.Base.{
  ◌≡◌, refl, String, true, false, Option, none, some, str_eq, eq_iff, ◌||◌, Bool-cases, inl, inr,
}
use mathlib.Core.Path.{subst}
use fluxor_db.Errors.Code
use fluxor_db.Errors.{
  Err, wrapped, database, has_code, is_retryable_error, is_circuit_breaker_error, wrap_error,
  as_database,
}

code_class :
    (code : String)
    → (str_eq code Code.timeout || str_eq code Code.connection_failed) ≡ true
    → str_eq code Code.circuit_breaker_open ≡ false
code_class code h = elim (Bool-cases (str_eq code Code.circuit_breaker_open)) [
  | inl same ↦
      let retried : false ≡ true =
        subst (λ c. (str_eq c Code.timeout || str_eq c Code.connection_failed) ≡ true)
          ((eq_iff code Code.circuit_breaker_open).0 same) h in
      cc
  | inr other ↦ other
]

one_class :
    (o : Option String)
    → has_code (λ code. str_eq code Code.timeout || str_eq code Code.connection_failed) o ≡ true
    → has_code (λ code. str_eq code Code.circuit_breaker_open) o ≡ false
one_class none h = refl
one_class (some code) h = code_class code h

-- An error that is retryable is not a circuit breaker error.
pub classes_disjoint : (e : Err) → is_retryable_error e ≡ true → is_circuit_breaker_error e ≡ false
unfolding is_retryable_error is_circuit_breaker_error
classes_disjoint e h = one_class (as_database e) h

-- A context put around an error with %w does not change whether it is retryable, and an error that
-- WrapError makes is retryable, or a circuit breaker error, exactly as its new code says.
pub wrapping_classes :
    (before after code text : String) (e w : Err)
    → wrap_error code text (some e) ≡ some w
    → (is_retryable_error (wrapped before e after) ≡ is_retryable_error e)
      × (is_retryable_error w ≡ (str_eq code Code.timeout || str_eq code Code.connection_failed))
      × (is_circuit_breaker_error w ≡ str_eq code Code.circuit_breaker_open)
unfolding is_retryable_error is_circuit_breaker_error wrap_error
wrapping_classes before after code text e w h =
    let same : database code text e ≡ w = cc in rw (← same) (refl, refl, refl)
