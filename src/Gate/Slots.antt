-- ===== src/Gate/Slots.antt =====
-- gate.go: what ExecuteWithGate does with the connection slots. RecordSuccess gives no slot back.
use fluxor_db.Base.{ℕ, suc, ◌+◌, ◌≤◌, ◌<◌, ◌≡◌, ◌∙◌, ap, List, [], ◌∷◌, Option, none, some, arith}
use fluxor_db.Base.Int.{
  ℤ, pos, pos_part, ◌≤ℤ◌, ◌<ℤ◌, IsInt64, int64, ◌+ℤ◌, ◌-ℤ◌, int64_inc, int64_dec, int64_up,
  parts_exclusive, eq_of_parts,
}
use fluxor_db.Errors.{Result, ok, err}
use fluxor_db.Gate.Limiter
use fluxor_db.Gate.Breaker
use fluxor_db.Gate.Rate
use fluxor_db.Gate.Limiter.{Wake, ConnectionLimiter}
use fluxor_db.Gate.{
  ConnectionGate, acquire_slot, Progress, finished, blocked, allow, settle, after_allow,
  record_failure, record_success, execute_with_gate,
}

-- A gate without backpressure.
pub record IsDropping (cl : ConnectionLimiter) : Type 0 where
  pub no_channel : cl.sem ≡ none
  pub limit_fits : IsInt64 cl.max_connections
  pub fits : IsInt64 cl.current_connections
  pub below : cl.current_connections ≤ℤ cl.max_connections

-- What the limiter is after Allow: a refusal leaves it alone, a grant takes one free slot.
abbrev pub TakesSlot : ConnectionGate → Progress → Type 0
TakesSlot g blocked = ⊥
TakesSlot g (finished g' (some e)) = g'.limiter ≡ g.limiter
TakesSlot g (finished g' none) =
    (g.limiter.current_connections <ℤ g.limiter.max_connections)
    × (g'.limiter ≡ record (g.limiter) {
      current_connections = int64 (g.limiter.current_connections +ℤ pos 1);
    })

-- What a call of ExecuteWithGate did to the limiter: nothing if it failed, one slot if it succeeded.
abbrev pub KeepsSlot {ℓ κ} :
    {S : Type ℓ} {A : Type κ} → ConnectionGate → Option (ConnectionGate × S × Result A) → Type 0
KeepsSlot g none = ⊥
KeepsSlot g (some (g', _, err e)) = g'.limiter ≡ g.limiter
KeepsSlot g (some (g', _, ok a)) =
    (g.limiter.current_connections <ℤ g.limiter.max_connections)
    × (g'.limiter ≡ record (g.limiter) {
      current_connections = int64 (g.limiter.current_connections +ℤ pos 1);
    })

module _ (added : ℤ → ℤ → ℤ) (now later : ℕ) (w : Wake)
    (others : ConnectionGate → ConnectionGate) where
  acquire_slot-TakesSlot :
      (g : ConnectionGate) → IsDropping g.limiter → TakesSlot g (acquire_slot later w others g)
  unfolding acquire_slot Limiter.acquire_now
  acquire_slot-TakesSlot g d = ground arith

  pub allow-TakesSlot :
      (g : ConnectionGate) → IsDropping g.limiter → TakesSlot g (allow added now later w others g)
  unfolding allow
  allow-TakesSlot g d =
      let g1 : ConnectionGate = record g { breaker = (Breaker.allow now g.breaker).0 } in
      let g2 : ConnectionGate = record g1 { rate = (Rate.allow added now g.rate).0 } in
      ground (arith, acquire_slot-TakesSlot g2 d)

  settled-KeepsSlot {ℓ κ} :
      {S : Type ℓ} {A : Type κ} (g g' : ConnectionGate) (s : S) (r : Result A)
      → IsDropping g.limiter
      → TakesSlot g (finished g' none)
      → KeepsSlot g (some (settle added now later w others g' r, s, r))
  unfolding settle record_success record_failure Limiter.release
  settled-KeepsSlot g g' s (ok a) d t = t
  settled-KeepsSlot g g' s (err x) d t =
      let cl = g.limiter in
      let c = cl.current_connections in
      let up = int64_inc c cl.max_connections t.0 d.limit_fits d.fits in
      let c' = int64 (c +ℤ pos 1) in
      let one = parts_exclusive c in
      let other = parts_exclusive c' in
      let down = int64_dec c' (omega (arith, up, one, other)) up.0 in
      let same : int64 (c' -ℤ pos 1) ≡ c = eq_of_parts _ _ (omega (arith, up, down)) in
      ground (arith, same)

  after_allow-KeepsSlot {ℓ κ} :
      {S : Type ℓ} {A : Type κ} (operation : S → S × Result A) (g : ConnectionGate) (s : S)
      (p : Progress)
      → IsDropping g.limiter
      → TakesSlot g p
      → KeepsSlot g (after_allow added now later w others operation s p)
  unfolding after_allow
  after_allow-KeepsSlot operation g s blocked d t = t
  after_allow-KeepsSlot operation g s (finished g' (some e)) d t = t
  after_allow-KeepsSlot operation g s (finished g' none) d t =
      settled-KeepsSlot g g' (operation s).0 (operation s).1 d t

  -- On a gate without backpressure whose count is at most its limit, both int64, ExecuteWithGate
  -- always returns; the limiter is as it was if the call failed, and has taken one free slot, which
  -- it keeps, if it succeeded.
  pub execute-KeepsSlot {ℓ κ} :
      {S : Type ℓ} {A : Type κ} (operation : S → S × Result A) (g : ConnectionGate) (s : S)
      → IsDropping g.limiter
      → KeepsSlot g (execute_with_gate added now later w others operation g s)
  unfolding execute_with_gate
  execute-KeepsSlot operation g s d =
      after_allow-KeepsSlot operation g s (allow added now later w others g) d (allow-TakesSlot g d)

-- A call, with the times and the events that it meets.
pub record Request {ℓ κ} (S : Type ℓ) (A : Type κ) : Type (ℓ ⊔ κ) where
  pub now : ℕ
  pub later : ℕ
  pub wake : Wake
  pub others : ConnectionGate → ConnectionGate
  pub operation : S → S × Result A

-- After one call: a caller that stays blocked ends the history, a success is counted.
continue {ℓ κ} :
    {S : Type ℓ} {A : Type κ}
    → (ConnectionGate → S → ConnectionGate × ℕ)
    → ConnectionGate
    → Option (ConnectionGate × S × Result A)
    → ConnectionGate × ℕ
continue rest g none = (g, 0)
continue rest g (some (g', s', err e)) = rest g' s'
continue rest g (some (g', s', ok a)) = let (last, count) = rest g' s' in (last, suc count)

-- The number of successes counts the slots that are gone, and cannot pass the limit.
abbrev Counted : ConnectionGate → ConnectionGate × ℕ → Type 0
Counted g (last, count) =
    (n : ℕ)
    → g.limiter.current_connections ≡ pos n
    → (last.limiter.current_connections ≡ pos (n + count))
      × (n + count ≤ pos_part g.limiter.max_connections)

continue-Counted {ℓ κ} :
    {S : Type ℓ} {A : Type κ} (rest : ConnectionGate → S → ConnectionGate × ℕ) (g : ConnectionGate)
    (o : Option (ConnectionGate × S × Result A))
    → IsDropping g.limiter
    → KeepsSlot g o
    → ((g' : ConnectionGate) (s' : S) → IsDropping g'.limiter → Counted g' (rest g' s'))
    → Counted g (continue rest g o)
unfolding continue
continue-Counted rest g none d t ih n h = absurd t
continue-Counted rest g (some (g', s', err e)) d t ih n h =
    let same : g'.limiter ≡ g.limiter = t in ground (arith, ih g' s' (rw same d) n)
continue-Counted rest g (some (g', s', ok a)) d t ih n h =
    let limit = g.limiter.max_connections in
    let room : n < pos_part limit = ground arith in
    let up = int64_up n (omega arith) in
    let free : IsDropping g'.limiter = ground (arith, up) in
    let current : g'.limiter.current_connections ≡ pos (n + 1) = ground (arith, up) in
    let same : g'.limiter.max_connections ≡ limit = ground arith in
    let (total, bound) = ih g' s' free (n + 1) current in
    (total ∙ ap pos (omega arith), omega (arith, bound, ap pos_part same))

module _ (added : ℤ → ℤ → ℤ) where
  -- A history of calls, one after the other: the last gate, and the number of successes.
  unfoldable pub run {ℓ κ} :
      {S : Type ℓ} {A : Type κ} → List (Request S A) → ConnectionGate → S → ConnectionGate × ℕ
  unfolding continue
  run [] g s = (g, 0)
  run (r ∷ more) g s =
      continue (run more) g (execute_with_gate added r.now r.later r.wake r.others r.operation g s)

  run-Counted {ℓ κ} :
      {S : Type ℓ} {A : Type κ} (calls : List (Request S A)) (g : ConnectionGate) (s : S)
      → IsDropping g.limiter
      → Counted g (run calls g s)
  unfolding run
  run-Counted [] g s d n h = (ground arith, ground arith)
  run-Counted (r ∷ more) g s d n h =
      continue-Counted (run more) g _ d
        (execute-KeepsSlot added r.now r.later r.wake r.others r.operation g s d) (run-Counted more)
        n h

  -- Over any history of calls of ExecuteWithGate, on a gate without backpressure that holds n slots
  -- (n at most the limit, both int64), the limiter holds n slots more than there were successful
  -- calls at the end, and that sum is at most the limit: a success takes a slot for good, and no
  -- more calls succeed than there were free slots.
  pub run_successes {ℓ κ} :
      {S : Type ℓ} {A : Type κ} (calls : List (Request S A)) (g : ConnectionGate) (s : S) (n : ℕ)
      → IsDropping g.limiter
      → g.limiter.current_connections ≡ pos n
      → ((run calls g s).0.limiter.current_connections ≡ pos (n + (run calls g s).1))
        × (n + (run calls g s).1 ≤ pos_part g.limiter.max_connections)
  run_successes calls g s n d h = run-Counted calls g s d n h
