-- ===== src/Tcp/Lifecycle/Deadlock.antt =====
-- tcp_server.go: Stop waits with the mutex for handlers that wait for the mutex.
use mathlib.Core.Path.{subst}
use fluxor_db.Base.{
  ◌≡◌, refl, sym, ◌∙◌, Bool, true, List, [], ◌∷◌, ◌⊎◌, inl, inr, All, false_not_true,
}
use fluxor_db.Tcp.Admission.{TcpServerConfig}
use fluxor_db.Tcp.Lifecycle.{
  Acceptor, Handler, arriving, reading, limiting, gone, Stopper, waiting, Lifecycle, initial,
  IsFree, IsGone, Move, unchecked, allowed, refused, answered, asking, limited, left, Inside, here,
  there, Step, starting, stopping, stopping_again, stopped, passed, leaving, accepted, failed,
  failed_shut, spawned, handling, Steps, none_yet, later,
}

module _ (c : TcpServerConfig) where
  -- The handler goes no further without the mutex.
  WantsLock : Handler → Type 0
  WantsLock arriving = c.enable_ddos_protection ≡ true
  WantsLock reading = ⊥
  WantsLock limiting = Unit
  WantsLock gone = ⊥

  abbrev SomeWants : List Handler → Type 0
  SomeWants [] = ⊥
  SomeWants (h ∷ hs) = WantsLock h ⊎ SomeWants hs

  unfoldable pub IsStuck : Lifecycle → Type 0
  unfolding WantsLock
  IsStuck s = (s.stopper ≡ waiting) × SomeWants s.handlers

  -- While Stop waits, such a handler stays where it is.
  move-wants :
      {closed : Bool} {st : Stopper} {h h' : Handler}
      → st ≡ waiting
      → Move c closed st h h'
      → WantsLock h
      → WantsLock h'
  unfolding WantsLock
  move-wants e (unchecked off) w = absurd (false_not_true (sym off ∙ w))
  move-wants e (allowed on free) w = absurd (subst IsFree e free)
  move-wants e (refused on free) w = absurd (subst IsFree e free)
  move-wants e (answered shut) w = w
  move-wants e (asking shut on rate) w = tt
  move-wants e (limited free) w = absurd (subst IsFree e free)
  move-wants e left w = w

  Inside-wants :
      {closed : Bool} {st : Stopper} {hs hs' : List Handler}
      → st ≡ waiting
      → Inside c closed st hs hs'
      → SomeWants hs
      → SomeWants hs'
  Inside-wants e (here m) (inl w) = inl (move-wants e m w)
  Inside-wants e (here m) (inr w) = inr w
  Inside-wants e (there i) (inl w) = inl w
  Inside-wants e (there i) (inr w) = inr (Inside-wants e i w)

  not_gone : (hs : List Handler) → SomeWants hs → All IsGone hs → ⊥
  unfolding WantsLock
  not_gone [] w all = w
  not_gone (arriving ∷ hs) w (g, all) = g
  not_gone (reading ∷ hs) w (g, all) = g
  not_gone (limiting ∷ hs) w (g, all) = g
  not_gone (gone ∷ hs) (inl w) (g, all) = w
  not_gone (gone ∷ hs) (inr w) (g, all) = not_gone hs w all

  Step-IsStuck : (s t : Lifecycle) → Step c s t → IsStuck s → IsStuck t
  unfolding IsStuck
  Step-IsStuck s t (starting free shut) (e, w) = absurd (subst IsFree e free)
  Step-IsStuck s t (stopping free on open') (e, w) = absurd (subst IsFree e free)
  Step-IsStuck s t (stopping_again free on shut) (e, w) = absurd (subst IsFree e free)
  Step-IsStuck s t (stopped e' ended' all) (e, w) = absurd (not_gone s.handlers w all)
  Step-IsStuck s t (passed a o) h = h
  Step-IsStuck s t (leaving a o) h = h
  Step-IsStuck s t (accepted a) h = h
  Step-IsStuck s t (failed a) h = h
  Step-IsStuck s t (failed_shut a o) h = h
  Step-IsStuck s t (spawned a) (e, w) = (e, inr w)
  Step-IsStuck s t (handling i) (e, w) = (e, Inside-wants e i w)

  Steps-IsStuck : (s : Lifecycle) {t : Lifecycle} → Steps c s t → IsStuck s → IsStuck t
  Steps-IsStuck s none_yet h = h
  Steps-IsStuck s (later {t} {u} l st) h = Step-IsStuck t u st (Steps-IsStuck s l h)

  -- A client connects, and Stop takes the mutex before allowConnection does.
  unfoldable pub cut_off : Lifecycle
  cut_off = record {
    listening = true;
    shutdown_closed = true;
    acceptor = Acceptor.checking;
    handlers = arriving ∷ [];
    stopper = waiting;
  }

  reach_cut_off : Steps c initial cut_off
  unfolding cut_off
  reach_cut_off =
      later
        (later
          (later (later (later none_yet (starting tt refl)) (passed refl refl)) (accepted refl))
          (spawned refl))
        (stopping tt refl refl)

  -- With DDoS protection a run of the server leads to a state in which Stop waits for a client
  -- that has not passed allowConnection, and from that state no run leads to one in which Stop has
  -- returned: it stays waiting.
  pub stop_deadlock :
      (t : Lifecycle)
      → c.enable_ddos_protection ≡ true
      → Steps c cut_off t
      → Steps c initial cut_off × (t.stopper ≡ waiting)
  unfolding IsStuck cut_off WantsLock
  stop_deadlock t on l = (reach_cut_off, (Steps-IsStuck cut_off l (refl, inl on)).0)
