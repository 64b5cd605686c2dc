-- ===== src/Gate.antt =====
-- gate.go: ConnectionGate and ExecuteWithGate over the three guards. Times are arguments: `now` is
-- what the guards read when Allow starts, `later` what RecordFailure reads. `added` is the
-- floating-point product of the rate limiter.
pub mod Config
pub mod Breaker
pub mod Rate
pub mod Limiter
pub mod Slots
use fluxor_db.Base.{ℕ, String, Option, none, some}
use fluxor_db.Base.Int.{ℤ}
use fluxor_db.Errors.{Err, Result, ok, err}
use Config.{GateConfig}
use Breaker.{CircuitBreaker}
use Rate.{RateLimiter}
use Limiter.{ConnectionLimiter, Wake}

pub record ConnectionGate : Type 0 where
  pub breaker : CircuitBreaker
  pub rate : RateLimiter
  pub limiter : ConnectionLimiter

unfoldable pub new_connection_gate : ℕ → Option GateConfig → ConnectionGate
new_connection_gate now c = record {
  breaker = Breaker.new_circuit_breaker c;
  rate = Rate.new_rate_limiter now c;
  limiter = Limiter.new_connection_limiter c;
}

unfoldable pub release : ConnectionGate → ConnectionGate
release g = record g { limiter = Limiter.release g.limiter }

unfoldable pub record_success : ConnectionGate → ConnectionGate
record_success g = record g { breaker = Breaker.record_success g.breaker }

unfoldable pub record_failure : ℕ → ConnectionGate → ConnectionGate
record_failure now g = record g {
  breaker = Breaker.record_failure now g.breaker;
  limiter = Limiter.release g.limiter;
}

unfoldable pub state_text : ConnectionGate → String
state_text g = Breaker.state_text g.breaker

-- What Allow has come to.
pub data Progress : Type 0 where
  finished : ConnectionGate → Option Err → Progress
  blocked : Progress

-- The last guard's answer.
slot_answer : ℕ → ConnectionGate → Limiter.Progress → Progress
slot_answer later g (Limiter.Progress.finished cl none) = finished (record g { limiter = cl }) none
slot_answer later g (Limiter.Progress.finished cl (some e)) =
    finished (record g { limiter = cl; breaker = Breaker.record_failure later g.breaker }) (some e)
slot_answer later g Limiter.Progress.blocked = blocked

-- AcquireWithContext of the gate's limiter; `others` is what other goroutines do to the gate while
-- this one is blocked.
unfoldable pub acquire_slot :
    ℕ → Wake → (ConnectionGate → ConnectionGate) → ConnectionGate → Progress
unfolding slot_answer
acquire_slot later w others g = elim (Limiter.acquire_now g.limiter) [
  | Limiter.Progress.finished cl e ↦ slot_answer later g (Limiter.Progress.finished cl e)
  | Limiter.Progress.blocked ↦
      slot_answer later (others g) (Limiter.acquire_wake w (others g).limiter)
]

module _ (added : ℤ → ℤ → ℤ) (now later : ℕ) (w : Wake)
    (others : ConnectionGate → ConnectionGate) where
  rate_answer : ConnectionGate → Option Err → Progress
  rate_answer g none = acquire_slot later w others g
  rate_answer g (some e) =
      finished (record g { breaker = Breaker.record_failure now g.breaker }) (some e)

  breaker_answer : ConnectionGate → Option Err → Progress
  unfolding rate_answer
  breaker_answer g none =
      let (rate, e) = Rate.allow added now g.rate in rate_answer (record g { rate = rate }) e
  breaker_answer g (some e) = finished g (some e)

  unfoldable pub allow : ConnectionGate → Progress
  unfolding breaker_answer
  allow g =
      let (breaker, e) = Breaker.allow now g.breaker in
      breaker_answer (record g { breaker = breaker }) e

  -- After the operation: RecordFailure or RecordSuccess.
  unfoldable pub settle {ℓ} : {A : Type ℓ} → ConnectionGate → Result A → ConnectionGate
  settle g (ok a) = record_success g
  settle g (err e) = record_failure later g

  -- ExecuteWithGate after Allow. The operation works on a state `S` of its own (the database);
  -- `none` means that the caller stays blocked.
  unfoldable pub after_allow {ℓ κ} :
      {S : Type ℓ} {A : Type κ}
      → (S → S × Result A)
      → S
      → Progress
      → Option (ConnectionGate × S × Result A)
  unfolding settle
  after_allow operation s blocked = none
  after_allow operation s (finished g (some e)) = some (g, s, err e)
  after_allow operation s (finished g none) =
      let (s', result) = operation s in some (settle g result, s', result)

  unfoldable pub execute_with_gate {ℓ κ} :
      {S : Type ℓ} {A : Type κ}
      → (S → S × Result A)
      → ConnectionGate
      → S
      → Option (ConnectionGate × S × Result A)
  unfolding after_allow
  execute_with_gate operation g s = after_allow operation s (allow g)
