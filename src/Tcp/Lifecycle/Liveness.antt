-- ===== src/Tcp/Lifecycle/Liveness.antt =====
-- tcp_server.go: a Stop that waits can return, when no handler needs the mutex.
use fluxor_db.Base.{◌≡◌, ◌≢◌, refl, sym, ◌∙◌, Bool, true, false, List, [], ◌∷◌, All, false_not_true}
use fluxor_db.Tcp.Admission.{TcpServerConfig}
use fluxor_db.Tcp.Lifecycle.{
  Acceptor, absent, checking, accepting, storing, ended, Handler, arriving, reading, limiting, gone,
  Stopper, waiting, returned, Lifecycle, initial, IsGone, Move, unchecked, left, Inside, here,
  there, Step, stopped, leaving, failed_shut, spawned, handling, Steps, allowed, refused, answered,
  asking, limited, starting, stopping, stopping_again, passed, accepted, failed, none_yet, later,
}
use fluxor_db.Tcp.Lifecycle.Stopping.{initial-Invariant, Steps-Invariant}

module _ (c : TcpServerConfig) where
  -- Several moves of handlers.
  data Moves (closed : Bool) (st : Stopper) (hs : List Handler) : List Handler → Type 0 where
    unmoved : Moves closed st hs hs
    moved :
        {hs' hs'' : List Handler}
        → Moves closed st hs hs'
        → Inside c closed st hs' hs''
        → Moves closed st hs hs''

  Moves-there :
      {closed : Bool} {st : Stopper} (h : Handler) {hs hs' : List Handler}
      → Moves closed st hs hs'
      → Moves closed st (h ∷ hs) (h ∷ hs')
  Moves-there h unmoved = unmoved
  Moves-there h (moved m i) = moved (Moves-there h m) (there i)

  IsUnlocked : Handler → Type 0
  IsUnlocked arriving = Unit
  IsUnlocked reading = Unit
  IsUnlocked limiting = ⊥
  IsUnlocked gone = Unit

  module _ (off : c.enable_ddos_protection ≡ false) where
    -- A handler ends, after those behind it.
    last-Moves :
        {closed : Bool} {st : Stopper} (h : Handler) (hs hs' : List Handler)
        → IsUnlocked h
        → Moves closed st hs hs'
        → Moves closed st (h ∷ hs) (gone ∷ hs')
    unfolding IsUnlocked
    last-Moves arriving hs hs' u m =
        moved (moved (Moves-there arriving m) (here (unchecked off))) (here left)
    last-Moves reading hs hs' u m = moved (Moves-there reading m) (here left)
    last-Moves limiting hs hs' u m = absurd u
    last-Moves gone hs hs' u m = Moves-there gone m

    drain :
        (closed : Bool) (st : Stopper) (hs : List Handler)
        → All IsUnlocked hs
        → (hs' : List Handler) × Moves closed st hs hs' × All IsGone hs'
    drain closed st [] u = ([], unmoved, tt)
    drain closed st (h ∷ hs) (u, us) =
        let (hs', m, all) = drain closed st hs us in
        (gone ∷ hs', last-Moves h hs hs' u m, (tt, all))

    -- Without the protection no handler is ever before checkRateLimit.
    Move-IsUnlocked :
        {closed : Bool} {st : Stopper} {h h' : Handler}
        → Move c closed st h h'
        → IsUnlocked h
        → IsUnlocked h'
    unfolding IsUnlocked
    Move-IsUnlocked (unchecked o) u = tt
    Move-IsUnlocked (allowed o free) u = tt
    Move-IsUnlocked (refused o free) u = tt
    Move-IsUnlocked (answered shut) u = tt
    Move-IsUnlocked (asking shut on rate) u = absurd (false_not_true (sym off ∙ on))
    Move-IsUnlocked (limited free) u = tt
    Move-IsUnlocked left u = tt

    Inside-IsUnlocked :
        {closed : Bool} {st : Stopper} {hs hs' : List Handler}
        → Inside c closed st hs hs'
        → All IsUnlocked hs
        → All IsUnlocked hs'
    Inside-IsUnlocked (here m) (u, us) = (Move-IsUnlocked m u, us)
    Inside-IsUnlocked (there i) (u, us) = (u, Inside-IsUnlocked i us)

    Step-IsUnlocked :
        (s t : Lifecycle) → Step c s t → All IsUnlocked s.handlers → All IsUnlocked t.handlers
    unfolding IsUnlocked
    Step-IsUnlocked s t (starting free shut) u = u
    Step-IsUnlocked s t (stopping free on open') u = u
    Step-IsUnlocked s t (stopping_again free on shut) u = u
    Step-IsUnlocked s t (stopped e done all) u = u
    Step-IsUnlocked s t (passed a o) u = u
    Step-IsUnlocked s t (leaving a o) u = u
    Step-IsUnlocked s t (accepted a) u = u
    Step-IsUnlocked s t (failed a) u = u
    Step-IsUnlocked s t (failed_shut a o) u = u
    Step-IsUnlocked s t (spawned a) u = (tt, u)
    Step-IsUnlocked s t (handling i) u = Inside-IsUnlocked i u

    Steps-IsUnlocked :
        (s : Lifecycle) {t : Lifecycle}
        → Steps c s t
        → All IsUnlocked s.handlers
        → All IsUnlocked t.handlers
    Steps-IsUnlocked s none_yet h = h
    Steps-IsUnlocked s (later {t} {u} l st) h = Step-IsUnlocked t u st (Steps-IsUnlocked s l h)

    -- The moves of the handlers are steps of the server.
    Steps-Moves :
        (s t : Lifecycle) {hs : List Handler}
        → Steps c s t
        → Moves t.shutdown_closed t.stopper t.handlers hs
        → Steps c s (record t { handlers = hs })
    Steps-Moves s t l unmoved = l
    Steps-Moves s t l (moved m i) = later (Steps-Moves s t l m) (handling i)

    -- acceptLoop has ended, with the handlers that it started on the way.
    Ending : Lifecycle → Type 0
    Ending s =
        (t : Lifecycle) × Steps c s t
        × (t.acceptor ≡ ended)
        × (t.stopper ≡ waiting)
        × All IsUnlocked t.handlers

    accept_ends :
        (s : Lifecycle) (a : Acceptor)
        → s.acceptor ≡ a
        → a ≢ absent
        → s.stopper ≡ waiting
        → s.shutdown_closed ≡ true
        → All IsUnlocked s.handlers
        → Ending s
    unfolding Ending IsUnlocked
    accept_ends s absent e there' w shut u = absurd (there' refl)
    accept_ends s checking e there' w shut u =
        (record s { acceptor = ended }, later none_yet (leaving e shut), refl, w, u)
    accept_ends s accepting e there' w shut u =
        (record s { acceptor = ended }, later none_yet (failed_shut e shut), refl, w, u)
    accept_ends s storing e there' w shut u = (
      record s { acceptor = ended; handlers = arriving ∷ s.handlers },
      later (later none_yet (spawned e)) (leaving refl shut),
      refl,
      w,
      (tt, u),
    )
    accept_ends s ended e there' w shut u = (s, none_yet, e, w, u)

    -- Without DDoS protection, from every state that a run of the server leads to and in which
    -- Stop waits, some run goes on to a state in which Stop has returned.
    pub stop_can_return :
        (s : Lifecycle)
        → Steps c initial s
        → s.stopper ≡ waiting
        → (t : Lifecycle) × Steps c s t × (t.stopper ≡ returned)
    unfolding Ending
    stop_can_return s l w =
        let inv = Steps-Invariant c initial l initial-Invariant in
        let (on, shut) = inv.during w in
        let (t, l', done, w', u) =
          accept_ends s s.acceptor refl (inv.present on) w shut (Steps-IsUnlocked initial l tt) in
        let (hs, m, all) = drain t.shutdown_closed t.stopper t.handlers u in
        (
          record t { handlers = hs; stopper = returned },
          later (Steps-Moves s t l' m) (stopped w' done all),
          refl,
        )
