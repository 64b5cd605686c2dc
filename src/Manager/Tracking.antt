-- ===== src/Manager/Tracking.antt =====
-- open.go: the connections that the manager tracks.
use mathlib.Core.Path.{subst}
use fluxor_db.Base.{
  ℕ, ◌+◌, ◌≤◌, ◌<◌, ◌≡◌, refl, sym, Bool, true, false, Option, none, some, List, [], ◌∷◌, length,
  All, arith, if◌then◌else◌,
}
use fluxor_db.Base.Int.{uint64_id, two64}
use fluxor_db.Errors.{Err, message}
use fluxor_db.Manager.{
  ConnectionManager, TrackedConnection, track_connection, without, acquire_connection, validated,
  received, release_connection,
}
use fluxor_db.Manager.Validator.{Pool, validate}

-- A tracked number was given out before.
abbrev pub IsTracked : ConnectionManager → Type 0
IsTracked cm = All (λ c. c.id ≤ cm.connection_id) cm.active_connections

without_id :
    (k : ℕ) (cs : List TrackedConnection) → All (λ c. c.id ≤ k) cs → without (k + 1) cs ≡ cs
unfolding without
without_id k [] h = refl
without_id k (c ∷ cs) (le, h) = ground (arith, without_id k cs h)

All_weaken :
    (k : ℕ) (cs : List TrackedConnection) → All (λ c. c.id ≤ k) cs → All (λ c. c.id ≤ k + 1) cs
All_weaken k [] h = tt
All_weaken k (c ∷ cs) (le, h) = (omega arith, All_weaken k cs h)

track_exact :
    (now : ℕ) (cm : ConnectionManager)
    → IsTracked cm
    → cm.connection_id + 1 < two64
    → track_connection now cm ≡ record cm {
      connection_id = cm.connection_id + 1;
      active_connections =
          record {
            id = cm.connection_id + 1;
            acquired_at = now;
            last_used_at = now;
            query_count = 0;
          }
          ∷ cm.active_connections;
    }
unfolding track_connection
track_exact now cm h fits =
    rw (uint64_id (cm.connection_id + 1) fits, without_id cm.connection_id cm.active_connections h)
      refl

-- What one call changes: at most one connection more, with the next number.
abbrev Progress : ConnectionManager → ℕ → ConnectionManager → Type 0
Progress cm n cm' =
    (cm'.config.enable_leak_detection ≡ true)
    × IsTracked cm'
    × (cm'.connection_id ≤ cm.connection_id + 1)
    × (length cm'.active_connections ≡ length cm.active_connections + n)

track-Progress :
    (now : ℕ) (cm : ConnectionManager)
    → cm.config.enable_leak_detection ≡ true
    → IsTracked cm
    → cm.connection_id + 1 < two64
    → Progress cm 1 (track_connection now cm)
track-Progress now cm on h fits = rw (track_exact now cm h fits) (
  on,
  (omega arith, All_weaken cm.connection_id cm.active_connections h),
  omega arith,
  omega arith,
)

module _ {Ctx S : Type 0} (pool : Pool Ctx S) where
  pub data Call : Type 0 where
    acquire : ℕ → Ctx → Call
    release : Call

  abbrev is_none : Option Err → Bool
  is_none none = true
  is_none (some _) = false

  -- The manager after calls of AcquireConnection and ReleaseConnection.
  unfoldable pub run : List Call → ConnectionManager → S → ConnectionManager × S
  run [] cm s = (cm, s)
  run (acquire now ctx ∷ calls) cm s =
      let (cm', s', _) = acquire_connection pool now ctx cm s in run calls cm' s'
  run (release ∷ calls) cm s = let (cm', s') = release_connection pool cm s in run calls cm' s'

  -- How many of the calls give a connection.
  unfoldable pub given : List Call → ConnectionManager → S → ℕ
  given [] cm s = 0
  given (acquire now ctx ∷ calls) cm s =
      let (cm', s', e) = acquire_connection pool now ctx cm s in
      let rest = given calls cm' s' in if is_none e then rest + 1 else rest
  given (release ∷ calls) cm s = let (cm', s') = release_connection pool cm s in given calls cm' s'

  abbrev count : Option Err → ℕ
  count e = if is_none e then 1 else 0

  -- What AcquireConnection does to the manager.
  abbrev Acquired : ConnectionManager → ConnectionManager × S × Option Err → Type 0
  Acquired cm r = Progress cm (count r.2) r.0

  module _ (now : ℕ) (cm : ConnectionManager) (on : cm.config.enable_leak_detection ≡ true)
      (h : IsTracked cm) (fits : cm.connection_id + 1 < two64) where
    unchanged : Progress cm 0 cm
    unchanged = (on, h, omega arith, omega arith)

    validated-Acquired : (r : S × Option Err) → Acquired cm (validated pool now cm r)
    unfolding validated
    validated-Acquired (s, some e) = unchanged
    validated-Acquired (s, none) =
        subst (λ b. Progress cm 1 (if b then track_connection now cm else cm)) (sym on)
          (track-Progress now cm on h fits)

    received-Acquired : (ctx : Ctx) (r : S × Option Err) → Acquired cm (received pool now ctx cm r)
    unfolding received
    received-Acquired ctx (s, some e) = unchanged
    received-Acquired ctx (s, none) = validated-Acquired (validate pool cm.validator ctx s)

    guarded-Acquired :
        (ctx : Ctx) (s : S) (e : Err) (open' : Bool)
        → Acquired cm
            (if open' then received pool now ctx cm (pool.conn ctx s) else (cm, s, some e))
    guarded-Acquired ctx s e true = received-Acquired ctx (pool.conn ctx s)
    guarded-Acquired ctx s e false = unchanged

    acquire-Acquired : (ctx : Ctx) (s : S) → Acquired cm (acquire_connection pool now ctx cm s)
    unfolding acquire_connection
    acquire-Acquired ctx s = guarded-Acquired ctx s (message "database not opened") cm.opened

  -- What a sequence of calls leaves: `n` connections more.
  abbrev Holds : ConnectionManager → ℕ → ConnectionManager → Type 0
  Holds cm n cm' =
      IsTracked cm' × (length cm'.active_connections ≡ length cm.active_connections + n)

  -- On a manager with leak detection whose tracked numbers were given out before, and with numbers
  -- left below 2 ^ 64, any calls of AcquireConnection and ReleaseConnection leave as many tracked
  -- connections more as calls gave a connection: no release takes one off.
  pub tracked-run :
      (calls : List Call) (cm : ConnectionManager) (s : S)
      → cm.config.enable_leak_detection ≡ true
      → IsTracked cm
      → cm.connection_id + length calls < two64
      → Holds cm (given calls cm s) (run calls cm s).0
  unfolding given run release_connection
  tracked-run [] cm s on h fits = (h, omega arith)
  tracked-run (release ∷ calls) cm s on h fits =
      tracked-run calls cm (pool.close_conn s) on h (omega arith)
  tracked-run (acquire now ctx ∷ calls) cm s on h fits =
      let r = acquire_connection pool now ctx cm s in
      let (on', h', id', len) = acquire-Acquired now cm on h (omega arith) ctx s in
      let (t, l) = tracked-run calls r.0 r.1 on' h' (omega arith) in (t, ground arith)
