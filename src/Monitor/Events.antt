-- ===== src/Monitor/Events.antt =====
-- monitor.go: what one callback is told.
use fluxor_db.Base.{
  ℕ, ◌+◌, ◌≡◌, refl, Bool, true, false, not, List, [], ◌∷◌, append, str_eq, ◌==◌, if◌then◌else◌,
  arith, Bool-cases, inl, inr,
}
use fluxor_db.Base.Int.{is_pos}
use fluxor_db.Monitor.{
  Check, MonitorEvent, periodic_event, warning_event, slow_query_event, breaker_event, notify,
  notify_if, check_and_notify,
}

-- How often a callback was added.
unfoldable pub occurrences : ℕ → List ℕ → ℕ
occurrences c [] = 0
occurrences c (d ∷ ds) = (if d == c then 1 else 0) + occurrences c ds

-- The events that a callback was called with, in order.
unfoldable pub received : ℕ → List (ℕ × MonitorEvent) → List MonitorEvent
received c [] = []
received c ((d, e) ∷ calls) = let rest = received c calls in if d == c then e ∷ rest else rest

abbrev pub event_if : Bool → MonitorEvent → List MonitorEvent
event_if test e = if test then e ∷ [] else []

-- What a check has to tell.
abbrev pub events : Check → List MonitorEvent
events c =
    periodic_event c
    ∷ append (event_if (not c.health.healthy) (warning_event c)) (
        append (event_if (is_pos c.diagnostics.metrics.slow_queries) (slow_query_event c))
          (event_if (str_eq c.diagnostics.circuit_breaker "open") (breaker_event c)))

received-append :
    (c : ℕ) (xs ys : List (ℕ × MonitorEvent))
    → received c (append xs ys) ≡ append (received c xs) (received c ys)
unfolding received
received-append c [] ys = refl
received-append c ((d, e) ∷ xs) ys = elim (Bool-cases (d == c)) [
  | inl same ↦ rw (same, received-append c xs ys) refl
  | inr other ↦ rw (other, received-append c xs ys) refl
]

received-notify_none :
    (c : ℕ) (ds : List ℕ) (e : MonitorEvent) → occurrences c ds ≡ 0 → received c (notify ds e) ≡ []
unfolding received notify occurrences
received-notify_none c [] e h = refl
received-notify_none c (d ∷ ds) e h = ground (arith, received-notify_none c ds e)

received-notify :
    (c : ℕ) (ds : List ℕ) (e : MonitorEvent)
    → occurrences c ds ≡ 1
    → received c (notify ds e) ≡ e ∷ []
unfolding received notify occurrences
received-notify c [] e h = absurd (omega arith)
received-notify c (d ∷ ds) e h = ground (arith, received-notify c ds e, received-notify_none c ds e)

received-notify_if :
    (c : ℕ) (test : Bool) (ds : List ℕ) (e : MonitorEvent)
    → occurrences c ds ≡ 1
    → received c (notify_if test ds e) ≡ event_if test e
unfolding notify_if received
received-notify_if c true ds e h = received-notify c ds e h
received-notify_if c false ds e h = refl

-- A callback that was added once is told by one check exactly the events that are due, in order:
-- the periodic one always, then the health warning, the slow queries and the open circuit, each if
-- and only if its condition holds.
pub received-check :
    (c : ℕ) (check : Check)
    → occurrences c check.callbacks ≡ 1
    → received c (check_and_notify check) ≡ events check
unfolding check_and_notify
received-check c check h =
    let cs = check.callbacks in
    let warn = not check.health.healthy in
    let slow = is_pos check.diagnostics.metrics.slow_queries in
    let open' = str_eq check.diagnostics.circuit_breaker "open" in
    simp (
      received-append,
      received-notify c cs (periodic_event check) h,
      received-notify_if c warn cs (warning_event check) h,
      received-notify_if c slow cs (slow_query_event check) h,
      received-notify_if c open' cs (breaker_event check) h,
    )
