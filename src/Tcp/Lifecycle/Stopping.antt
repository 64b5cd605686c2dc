-- ===== src/Tcp/Lifecycle/Stopping.antt =====
-- tcp_server.go: what holds once Stop has returned, and that it can return.
use mathlib.Core.Path.{subst}
use fluxor_db.Base.{
  ◌≡◌, ◌≢◌, refl, sym, ◌∙◌, Bool, true, false, List, ◌∷◌, ◌⊎◌, inl, inr, All, false_not_true,
}
use fluxor_db.Tcp.Admission.{TcpServerConfig}
use fluxor_db.Tcp.Lifecycle.{
  Acceptor, absent, checking, accepting, storing, ended, Handler, arriving, Stopper, idle, waiting,
  returned, panicked, Lifecycle, initial, IsFree, IsGone, Move, unchecked, allowed, refused,
  answered, asking, limited, left, Inside, here, there, Step, starting, stopping, stopping_again,
  stopped, passed, leaving, accepted, failed, failed_shut, spawned, handling, Steps, none_yet,
  later,
}

-- Stop has ended.
abbrev pub IsOver : Stopper → Type 0
IsOver idle = ⊥
IsOver waiting = ⊥
IsOver returned = Unit
IsOver panicked = Unit

abbrev IsIdle : Stopper → Type 0
IsIdle idle = Unit
IsIdle waiting = ⊥
IsIdle returned = ⊥
IsIdle panicked = ⊥

over_not_waiting : (st : Stopper) → IsOver st → st ≡ waiting → ⊥
over_not_waiting st over e = subst IsOver e over

waiting_not_idle : (st : Stopper) → IsIdle st → st ≡ waiting → ⊥
waiting_not_idle st i e = subst IsIdle e i

-- What can take the mutex has not called Stop, or its Stop is over.
free-cases : (st : Stopper) → IsFree st → IsIdle st ⊎ IsOver st
free-cases idle free = inl tt
free-cases waiting free = absurd free
free-cases returned free = inr tt
free-cases panicked free = absurd free

-- What every state of a server satisfies.
pub record Invariant (s : Lifecycle) : Type 0 where
  pub present : s.listening ≡ true → s.acceptor ≢ absent
  pub before : IsIdle s.stopper → s.shutdown_closed ≡ false
  pub during : s.stopper ≡ waiting → (s.listening ≡ true) × (s.shutdown_closed ≡ true)
  pub after :
      IsOver s.stopper
      → (s.listening ≡ true)
        × (s.shutdown_closed ≡ true)
        × (s.acceptor ≡ ended)
        × All IsGone s.handlers

pub initial-Invariant : Invariant initial
initial-Invariant = record {
  present = λ e. absurd (false_not_true e);
  before = λ _. refl;
  during = λ (e : idle ≡ waiting). absurd (waiting_not_idle idle tt e);
  after = λ over. absurd over;
}

module _ (c : TcpServerConfig) where
  move-gone : {closed : Bool} {st : Stopper} {h h' : Handler} → Move c closed st h h' → IsGone h → ⊥
  move-gone (unchecked off) g = g
  move-gone (allowed on free) g = g
  move-gone (refused on free) g = g
  move-gone (answered shut) g = g
  move-gone (asking shut on rate) g = g
  move-gone (limited free) g = g
  move-gone left g = g

  Inside-gone :
      {closed : Bool} {st : Stopper} {hs hs' : List Handler}
      → Inside c closed st hs hs'
      → All IsGone hs
      → ⊥
  Inside-gone (here m) (g, gs) = move-gone m g
  Inside-gone (there i) (g, gs) = Inside-gone i gs

  -- A step of acceptLoop does not happen once it has ended.
  acceptor-Invariant :
      (s : Lifecycle) (a a' : Acceptor) (hs : List Handler)
      → s.acceptor ≡ a
      → a ≢ ended
      → a' ≢ absent
      → Invariant s
      → Invariant (record s { acceptor = a'; handlers = hs })
  acceptor-Invariant s a a' hs e live new inv = record {
    present = λ _. new;
    before = inv.before;
    during = inv.during;
    after = λ over. let (on, shut, done, all) = inv.after over in absurd (live (sym e ∙ done));
  }

  Step-Invariant : (s t : Lifecycle) → Step c s t → Invariant s → Invariant t
  Step-Invariant s t (starting free shut) inv = record {
    present = λ _ e. cc;
    before = inv.before;
    during = λ w. (refl, (inv.during w).1);
    after = λ over. absurd (false_not_true (sym shut ∙ (inv.after over).0));
  }
  Step-Invariant s t (stopping free on open') inv = record {
    present = inv.present;
    before = λ i. absurd i;
    during = λ _. (on, refl);
    after = λ over. absurd over;
  }
  Step-Invariant s t (stopping_again free on shut) inv = record {
    present = inv.present;
    before = λ i. absurd i;
    during = λ (e : panicked ≡ waiting). absurd (over_not_waiting panicked tt e);
    after = λ _. elim (free-cases s.stopper free) [
      | inl i ↦ absurd (false_not_true (sym (inv.before i) ∙ shut))
      | inr over ↦ inv.after over
    ];
  }
  Step-Invariant s t (stopped e done all) inv = record {
    present = inv.present;
    before = λ i. absurd i;
    during = λ (e' : returned ≡ waiting). absurd (over_not_waiting returned tt e');
    after = λ _. let (on, shut) = inv.during e in (on, shut, done, all);
  }
  Step-Invariant s t (passed a o) inv =
      acceptor-Invariant s checking accepting s.handlers a (λ e. cc) (λ e. cc) inv
  Step-Invariant s t (leaving a o) inv =
      acceptor-Invariant s checking ended s.handlers a (λ e. cc) (λ e. cc) inv
  Step-Invariant s t (accepted a) inv =
      acceptor-Invariant s accepting storing s.handlers a (λ e. cc) (λ e. cc) inv
  Step-Invariant s t (failed a) inv =
      acceptor-Invariant s accepting checking s.handlers a (λ e. cc) (λ e. cc) inv
  Step-Invariant s t (failed_shut a o) inv =
      acceptor-Invariant s accepting ended s.handlers a (λ e. cc) (λ e. cc) inv
  Step-Invariant s t (spawned a) inv =
      acceptor-Invariant s storing checking (arriving ∷ s.handlers) a (λ e. cc) (λ e. cc) inv
  Step-Invariant s t (handling i) inv = record {
    present = inv.present;
    before = inv.before;
    during = inv.during;
    after = λ over. let (on, shut, done, all) = inv.after over in absurd (Inside-gone i all);
  }

  pub Steps-Invariant : (s : Lifecycle) {t : Lifecycle} → Steps c s t → Invariant s → Invariant t
  Steps-Invariant s none_yet inv = inv
  Steps-Invariant s (later {t} {u} l st) inv = Step-Invariant t u st (Steps-Invariant s l inv)

  Step-IsOver : (s t : Lifecycle) → Step c s t → Invariant s → IsOver s.stopper → IsOver t.stopper
  Step-IsOver s t (starting free shut) inv over = over
  Step-IsOver s t (stopping free on open') inv over =
      absurd (false_not_true (sym open' ∙ (inv.after over).1))
  Step-IsOver s t (stopping_again free on shut) inv over = tt
  Step-IsOver s t (stopped e done all) inv over = tt
  Step-IsOver s t (passed a o) inv over = over
  Step-IsOver s t (leaving a o) inv over = over
  Step-IsOver s t (accepted a) inv over = over
  Step-IsOver s t (failed a) inv over = over
  Step-IsOver s t (failed_shut a o) inv over = over
  Step-IsOver s t (spawned a) inv over = over
  Step-IsOver s t (handling i) inv over = over

  Steps-IsOver :
      (s : Lifecycle) {t : Lifecycle}
      → Steps c s t
      → Invariant s
      → IsOver s.stopper
      → IsOver t.stopper
  Steps-IsOver s none_yet inv over = over
  Steps-IsOver s (later {t} {u} l st) inv over =
      Step-IsOver t u st (Steps-Invariant s l inv) (Steps-IsOver s l inv over)

  -- When a run of the server leads to a state in which Stop has returned, then in every later
  -- state acceptLoop has ended, all goroutines of clients are gone, and the listener is still set,
  -- so that Start refuses.
  pub stop_is_final :
      (s t : Lifecycle)
      → Steps c initial s
      → s.stopper ≡ returned
      → Steps c s t
      → (t.acceptor ≡ ended) × All IsGone t.handlers × (t.listening ≡ true)
  stop_is_final s t l e l' =
      let inv = Steps-Invariant initial l initial-Invariant in
      let over = Steps-IsOver s l' inv (subst IsOver (sym e) tt) in
      let (on, shut, done, all) = (Steps-Invariant s l' inv).after over in (done, all, on)
