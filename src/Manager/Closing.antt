-- ===== src/Manager/Closing.antt =====
-- open.go: what the leak detector of a manager goes through.
use mathlib.Core.Path.{subst}
use mathlib.Core.Option.{some-injective}
use fluxor_db.Base.{
  ℕ, ◌≡◌, refl, sym, Bool, true, false, Option, none, some, [], if◌then◌else◌, if_both,
  none_not_some,
}
use fluxor_db.Errors.{Err}
use fluxor_db.Manager.{
  AdvancedConfig, ConnectionManager, LeakDetector, new_connection_manager, new_leak_detector,
  start_detector, stop_detector, check_leaks, close_db,
}
use fluxor_db.Manager.Validator.{Pool}
use fluxor_db.Manager.Later.{Later, close-Kept, kept}

-- Stop panics, or it closes the channel.
stop_detector-none : (d' : Option LeakDetector) → stop_detector none ≡ some d' → d' ≡ none
unfolding stop_detector
stop_detector-none d' e = sym (some-injective none d' e)

-- The branches of Stop.
stop-branches :
    (d : LeakDetector) (d' : Option LeakDetector) (b : Bool)
    → Path
        (Option (Option LeakDetector))
        (if b then none else some (some (record d { stop_closed = true })))
        (some d')
    → d' ≡ some (record d { stop_closed = true })
stop-branches d d' true e = absurd (none_not_some d' e)
stop-branches d d' false e = sym (some-injective _ d' e)

stop_detector-some :
    (d : LeakDetector) (d' : Option LeakDetector)
    → stop_detector (some d) ≡ some d'
    → d' ≡ some (record d { stop_closed = true })
unfolding stop_detector
stop_detector-some d d' e = stop-branches d d' d.stop_closed e

-- The detector is there, and its channel is closed.
IsStopped : Option LeakDetector → Type 0
IsStopped none = ⊥
IsStopped (some d) = d.stop_closed ≡ true

-- No detector reports to anyone.
IsSilent : Option LeakDetector → Type 0
IsSilent none = Unit
IsSilent (some d) = d.leak_callback ≡ none

IsStopped-start : (d : Option LeakDetector) → IsStopped d → IsStopped (start_detector d)
unfolding IsStopped start_detector
IsStopped-start none h = h
IsStopped-start (some d) h = h

IsStopped-stop :
    (d : LeakDetector) (d' : Option LeakDetector) → stop_detector (some d) ≡ some d' → IsStopped d'
unfolding IsStopped
IsStopped-stop d d' e = subst IsStopped (sym (stop_detector-some d d' e)) refl

IsStopped-again :
    (d d' : Option LeakDetector) → stop_detector d ≡ some d' → IsStopped d → IsStopped d'
unfolding IsStopped
IsStopped-again none d' e h = absurd h
IsStopped-again (some d) d' e h = IsStopped-stop d d' e

IsSilent-start : (d : Option LeakDetector) → IsSilent d → IsSilent (start_detector d)
unfolding IsSilent start_detector
IsSilent-start none h = h
IsSilent-start (some d) h = h

IsSilent-stop : (d d' : Option LeakDetector) → stop_detector d ≡ some d' → IsSilent d → IsSilent d'
unfolding IsSilent
IsSilent-stop none d' e h = subst IsSilent (sym (stop_detector-none d' e)) h
IsSilent-stop (some d) d' e h = subst IsSilent (sym (stop_detector-some d d' e)) h

panics : (d : Option LeakDetector) → IsStopped d → stop_detector d ≡ none
unfolding IsStopped stop_detector
panics none h = absurd h
panics (some d) h = rw h refl

module _ {Ctx S : Type 0} (pool : Pool Ctx S) where
  -- When Close of a manager with a leak detector returns, then after any further calls that return
  -- a second Close panics: it closes the closed channel of the detector.
  pub close_again :
      (cm m : ConnectionManager) (d : LeakDetector) (s s' : S)
      (r : ConnectionManager × S × Option Err)
      → cm.leak_detector ≡ some d
      → close_db pool cm s ≡ some r
      → Later pool r.0 m
      → close_db pool m s' ≡ none
  unfolding close_db
  close_again cm m d s s' r there closed' later =
      let first =
        close-Kept pool IsStopped IsStopped-start IsStopped-again cm s r closed'
          (λ d' e. IsStopped-stop d d' (subst (λ o. stop_detector o ≡ some d') there e)) in
      rw (panics m.leak_detector (kept pool IsStopped IsStopped-start IsStopped-again later first))
        refl

  IsSilent-new : (c : AdvancedConfig) → IsSilent (new_leak_detector c)
  unfolding IsSilent new_leak_detector
  IsSilent-new c = if_both IsSilent c.enable_leak_detection refl tt

  silent-check :
      (o : Option LeakDetector) (d : LeakDetector) (t : ℕ) (m : ConnectionManager)
      → IsSilent o
      → o ≡ some d
      → check_leaks t d m ≡ []
  unfolding IsSilent check_leaks
  silent-check o d t m h e =
      let silent : d.leak_callback ≡ none = subst IsSilent e h in rw silent refl

  -- A manager made by NewConnectionManager, after any calls that return, reports no leak at any
  -- time, whatever connections it tracks: its detector never has a callback.
  pub check_leaks-silent :
      (c : AdvancedConfig) (m : ConnectionManager) (d : LeakDetector) (t : ℕ)
      → Later pool (new_connection_manager c) m
      → m.leak_detector ≡ some d
      → check_leaks t d m ≡ []
  unfolding new_connection_manager
  check_leaks-silent c m d t later e =
      let silent = kept pool IsSilent IsSilent-start IsSilent-stop later (IsSilent-new c) in
      silent-check m.leak_detector d t m silent e
