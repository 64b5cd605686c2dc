-- ===== src/Gate/Limiter/Bounds.antt =====
-- gate.go: the limit on connections, whatever the goroutines interleave.
use fluxor_db.Base.{
  eq_iff, str_eq, true, false, ℕ, ◌+◌, ◌≤◌, ◌<◌, ◌≡◌, refl, Option, none, some, arith,
}
use fluxor_db.Base.Int.{pos, pos_part, neg_part, ◌≤ℤ◌, ◌<ℤ◌, IsInt64, two63, int64_inc, int64_dec}
use fluxor_db.Errors.{Err, connection_limit}
use fluxor_db.Gate.Config.{GateConfig}
use fluxor_db.Gate.Limiter.{
  ConnectionLimiter, finished, decided, entered, Wake, slot, timer, done, new_connection_limiter,
  attempt_now, attempt_wake, count_up, drain, count_down, acquire_with_context,
}

-- The limiter with the goroutines that are between two of their steps: those that have put a value
-- into the channel and not counted yet, and those that have taken one out and not counted yet.
pub record Shared : Type 0 where
  pub limiter : ConnectionLimiter
  pub entering : ℕ
  pub leaving : ℕ

abbrev pub idle : ConnectionLimiter → Shared
idle cl = record { limiter = cl; entering = 0; leaving = 0 }

-- The connections counted are at most the limit. With a channel, its values are at most the limit,
-- and the count can be above them by the goroutines in the middle of a Release alone.
abbrev pub Covers : Option ℕ → Shared → Type 0
Covers none s = (s.limiter.current_connections ≤ℤ s.limiter.max_connections) × (s.entering ≡ 0)
Covers (some n) s =
    (n ≤ pos_part s.limiter.max_connections)
    × (pos_part s.limiter.current_connections + s.entering
        ≤ n + s.leaving + neg_part s.limiter.current_connections)

pub record IsWithin (s : Shared) : Type 0 where
  pub limit : pos 0 <ℤ s.limiter.max_connections
  pub small : pos_part s.limiter.max_connections + s.leaving < two63
  pub fits : IsInt64 s.limiter.current_connections
  pub covers : Covers s.limiter.sem s

pub new_connection_limiter-IsWithin :
    (c : GateConfig)
    → IsInt64 c.max_concurrent_connections
    → IsWithin (idle (new_connection_limiter (some c)))
unfolding new_connection_limiter
new_connection_limiter-IsWithin c h = ground arith

-- One atomic step of a goroutine: a channel operation with its answer, or a change of the count. The
-- goroutines in the middle of a Release are fewer than two63 with the limit, and no count falls
-- below the int64s.
pub data Step (s : Shared) : Shared → Type 0 where
  answers :
      {cl : ConnectionLimiter} {e : Option Err}
      → attempt_now s.limiter ≡ decided cl e
      → Step s (record s { limiter = cl })
  enters :
      {cl : ConnectionLimiter}
      → attempt_now s.limiter ≡ entered cl
      → Step s (record s { limiter = cl; entering = s.entering + 1 })
  wakes :
      {cl : ConnectionLimiter} {e : Option Err} (w : Wake)
      → attempt_wake w s.limiter ≡ decided cl e
      → Step s (record s { limiter = cl })
  wakes_in :
      {cl : ConnectionLimiter} (w : Wake)
      → attempt_wake w s.limiter ≡ entered cl
      → Step s (record s { limiter = cl; entering = s.entering + 1 })
  counts :
      {k : ℕ}
      → s.entering ≡ k + 1
      → Step s (record s { limiter = count_up s.limiter; entering = k })
  drains :
      pos_part s.limiter.max_connections + s.leaving + 1 < two63
      → Step s (record s { limiter = drain s.limiter; leaving = s.leaving + 1 })
  leaves :
      {k : ℕ}
      → s.leaving ≡ k + 1
      → neg_part s.limiter.current_connections < two63
      → Step s (record s { limiter = count_down s.limiter; leaving = k })

pub data Reach (s : Shared) : Shared → Type 0 where
  here : Reach s s
  next : {t u : Shared} → Reach s t → Step t u → Reach s u

Step-IsWithin : {t u : Shared} → Step t u → IsWithin t → IsWithin u
Step-IsWithin {t} (answers {cl} {e} h) s =
    unfold attempt_now in
    ground (arith, int64_inc t.limiter.current_connections t.limiter.max_connections)
Step-IsWithin (enters {cl} h) s = unfold attempt_now in ground arith
Step-IsWithin (wakes {cl} {e} w h) s = unfold attempt_wake in ground arith
Step-IsWithin (wakes_in {cl} w h) s = unfold attempt_wake in ground arith
Step-IsWithin {t} (counts {k} h) s =
    unfold count_up in
    ground (
      arith,
      int64_inc t.limiter.current_connections
          (pos (pos_part t.limiter.max_connections + t.leaving)),
    )
Step-IsWithin (drains h) s = unfold drain in ground arith
Step-IsWithin {t} (leaves {k} h g) s =
    unfold count_down in ground (arith, int64_dec t.limiter.current_connections)

pub Reach-IsWithin : {s t : Shared} → IsWithin s → Reach s t → IsWithin t
Reach-IsWithin h here = h
Reach-IsWithin h (next r st) = Step-IsWithin st (Reach-IsWithin h r)

-- In mode block with a channel, when AcquireWithContext returns an error, it is the one of the
-- caller's context, and the limiter is as the other goroutines left it.
pub block_refusal :
    (w : Wake) (others : ConnectionLimiter → ConnectionLimiter) (cl cl' : ConnectionLimiter) (n : ℕ)
    (e : Err)
    → cl.sem ≡ some n
    → cl.mode ≡ "block"
    → (others cl).mode ≡ "block"
    → acquire_with_context w others cl ≡ finished cl' (some e)
    → (w ≡ done e) × (cl' ≡ others cl)
unfolding acquire_with_context
block_refusal slot others cl cl' n e held mode same h =
    let here : str_eq cl.mode "block" ≡ true = (eq_iff cl.mode "block").1 mode in
    let there : str_eq (others cl).mode "timeout" ≡ false = rw same refl in
    ground (arith, here, there)
block_refusal timer others cl cl' n e held mode same h =
    let here : str_eq cl.mode "block" ≡ true = (eq_iff cl.mode "block").1 mode in
    let there : str_eq (others cl).mode "timeout" ≡ false = rw same refl in
    ground (arith, here, there)
block_refusal (done x) others cl cl' n e held mode same h =
    let here : str_eq cl.mode "block" ≡ true = (eq_iff cl.mode "block").1 mode in
    let there : str_eq (others cl).mode "timeout" ≡ false = rw same refl in
    ground (arith, here, there)

-- In mode timeout with no time to wait, AcquireWithContext on a full channel returns
-- ErrConnectionLimit at once and leaves the limiter as it was.
pub timeout_refusal :
    (w : Wake) (others : ConnectionLimiter → ConnectionLimiter) (cl : ConnectionLimiter)
    → cl.sem ≡ some (pos_part cl.max_connections)
    → cl.mode ≡ "timeout"
    → cl.timeout ≤ℤ pos 0
    → acquire_with_context w others cl ≡ finished cl (some connection_limit)
unfolding acquire_with_context
timeout_refusal w others cl held mode h =
    let other : str_eq cl.mode "block" ≡ false = rw mode refl in
    ground (arith, other, (eq_iff cl.mode "timeout").1 mode)
