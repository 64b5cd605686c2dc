-- ===== src/Runtime/Connected.antt =====
-- dbruntime.go: when the runtime's calls reach the database.
use mathlib.Core.Path.{subst}
use mathlib.Core.Option.{some-injective}
use fluxor_db.Base.{
  ℕ, ◌≡◌, ◌≢◌, refl, sym, ap, ◌∙◌, Bool, true, false, Option, none, some, if◌then◌else◌, if_both,
  none_not_some, false_not_true,
}
use fluxor_db.Config.{RuntimeConfig}
use fluxor_db.Db.{AdvancedDb}
use fluxor_db.Errors.{Err}
use fluxor_db.Manager.{
  ConnectionManager, new_connection_manager, open_db, connected, pinged, close_db, closes,
  close_pool, closed, LeakDetector,
}
use fluxor_db.Manager.Validator.{Pool}
use fluxor_db.Runtime.Lifecycle.{
  DbRuntime, Ended, nil_dereference, blocked, returned, new_db_runtime, opened_as, connect,
  closed_as, disconnect, finished, with_advanced_db, when_connected, cleared,
}

module _ {Stmt Other : Type 0} {Ctx S : Type 0} (pool : Pool Ctx S) where
  -- What a runtime can become by calls that return.
  pub data Later (r : DbRuntime Stmt Other) : DbRuntime Stmt Other → Type 1 where
    unchanged : Later r r
    connecting : {q : DbRuntime Stmt Other} → Later r q → (s : S) → Later r (connect pool q s).0
    disconnecting :
        {q q' : DbRuntime Stmt Other}
        → Later r q
        → (s s' : S) (e : Option Err) → disconnect pool q s ≡ some (q', s', e)
        → Later r q'
    calling :
        {q q' : DbRuntime Stmt Other}
        → Later r q
        → {A : Type 0}
        → (refusal : A) (call : AdvancedDb Stmt → S → Option (AdvancedDb Stmt × S × A)) (s s' : S)
          (a : A)
        → when_connected refusal call q s ≡ returned (q', s', a)
        → Later r q'

IsSome {ℓ} : {A : Type ℓ} → Option A → Type 0
IsSome none = ⊥
IsSome (some a) = Unit

some-of : {A : Type 0} (o : Option A) → IsSome o → (a : A) × (o ≡ some a)
unfolding IsSome
some-of none h = absurd h
some-of (some a) h = (a, refl)

-- A manager that is open has its AdvancedDB.
HasDb : {Stmt : Type 0} → Bool → Option (AdvancedDb Stmt) → Type 0
unfolding IsSome
HasDb open' adb = open' ≡ true → IsSome adb

cleared-IsSome : {Stmt : Type 0} (o : Option (AdvancedDb Stmt)) → IsSome o → IsSome (cleared o)
unfolding IsSome
cleared-IsSome none h = h
cleared-IsSome (some adb) h = tt

-- An Open that fails does not open, and a Close does not.
module _ {Ctx S : Type 0} (pool : Pool Ctx S) where
  Fails : Bool → ConnectionManager × S × Option Err → Type 0
  unfolding IsSome
  Fails open' x = IsSome x.2 → x.0.opened ≡ open'

  pinged-Fails : (cm : ConnectionManager) (x : S × Option Err) → Fails cm.opened (pinged pool cm x)
  unfolding pinged Fails
  pinged-Fails cm (s, some e) _ = refl
  pinged-Fails cm (s, none) failed = absurd failed

  connected-Fails :
      (cm : ConnectionManager) (x : S × Option Err) → Fails cm.opened (connected pool cm x)
  unfolding connected Fails
  connected-Fails cm (s, some e) _ = refl
  connected-Fails cm (s, none) failed = pinged-Fails cm _ failed

  open-Fails : (cm : ConnectionManager) (s : S) → Fails cm.opened (open_db pool cm s)
  unfolding open_db Fails
  open-Fails cm s =
      if_both (Fails cm.opened) cm.opened (λ failed. absurd failed) (connected-Fails _ _)

  Shuts : Bool → ConnectionManager × S × Option Err → Type 0
  Shuts open' x = x.0.opened ≡ true → open' ≡ true

  closed-Shuts : (cm : ConnectionManager) (x : S × Option Err) → Shuts cm.opened (closed pool cm x)
  unfolding closed Shuts
  closed-Shuts cm (s, some e) h = h
  closed-Shuts cm (s, none) h = absurd (false_not_true h)

  close_pool-Shuts : (cm : ConnectionManager) (s : S) → Shuts cm.opened (close_pool pool cm s)
  unfolding close_pool Shuts
  close_pool-Shuts cm s = if_both (Shuts cm.opened) cm.opened (closed-Shuts cm _) (λ h. h)

  closes-Shuts :
      (cm : ConnectionManager) (s : S) (o : Option (Option LeakDetector))
      (x : ConnectionManager × S × Option Err)
      → closes pool cm s o ≡ some x
      → Shuts cm.opened x
  closes-Shuts cm s none x e = absurd (none_not_some x e)
  closes-Shuts cm s (some d) x e =
      subst (Shuts cm.opened) (some-injective _ x e)
        (close_pool-Shuts (record cm { leak_detector = d }) s)

  close-Shuts :
      (cm : ConnectionManager) (s : S) (x : ConnectionManager × S × Option Err)
      → close_db pool cm s ≡ some x
      → Shuts cm.opened x
  unfolding close_db
  close-Shuts cm s x e = closes-Shuts cm s _ x e

module _ {Stmt Other : Type 0} {Ctx S : Type 0} (pool : Pool Ctx S) where
  -- What a runtime keeps.
  Sound : DbRuntime Stmt Other → Type 0
  Sound r = HasDb r.conn_manager.opened r.advanced_db

  connect-Sound :
      (r : DbRuntime Stmt Other) (x : ConnectionManager × S × Option Err)
      → Fails pool r.conn_manager.opened x
      → Sound r
      → Sound (opened_as pool r x).0
  unfolding opened_as Sound HasDb IsSome Fails
  connect-Sound r (cm, s, some e) failed h is_open = h (sym (failed tt) ∙ is_open)
  connect-Sound r (cm, s, none) failed h is_open = tt

  disconnect-Sound :
      (r r' : DbRuntime Stmt Other) (s s' : S) (e : Option Err)
      (o : Option (ConnectionManager × S × Option Err))
      → close_db pool r.conn_manager s ≡ o
      → closed_as pool r o ≡ some (r', s', e)
      → Sound r
      → Sound r'
  unfolding Sound HasDb Shuts
  disconnect-Sound r r' s s' e none eq eq' h = absurd (none_not_some _ eq')
  disconnect-Sound r r' s s' e (some (cm, t, f)) eq eq' h =
      subst (λ (x : DbRuntime Stmt Other × S × Option Err). Sound x.0) (some-injective _ _ eq')
        (λ is_open.
          cleared-IsSome r.advanced_db
            (h (close-Shuts pool r.conn_manager s (cm, t, f) eq is_open)))

  -- A call that returns leaves a sound runtime, and none dereferences nil.
  EndsSound : {A : Type 0} → Ended (DbRuntime Stmt Other × S × A) → Type 0
  EndsSound nil_dereference = ⊥
  EndsSound blocked = Unit
  EndsSound (returned x) = Sound x.0

  finished-Sound :
      {A : Type 0} (r : DbRuntime Stmt Other) (o : Option (AdvancedDb Stmt × S × A))
      → EndsSound (finished r o)
  unfolding EndsSound Sound HasDb IsSome
  finished-Sound r none = tt
  finished-Sound r (some (adb, s, a)) = λ _. tt

  with_db-Sound :
      {A : Type 0} (o : Option (AdvancedDb Stmt))
      (call : AdvancedDb Stmt → Option (AdvancedDb Stmt × S × A)) (r : DbRuntime Stmt Other)
      → IsSome o
      → EndsSound (with_advanced_db o call r)
  unfolding IsSome
  with_db-Sound none call r h = absurd h
  with_db-Sound (some adb) call r h = finished-Sound r (call adb)

  branches-Sound :
      {A : Type 0} (open' : Bool) (x y : Ended (DbRuntime Stmt Other × S × A))
      → (open' ≡ true → EndsSound x)
      → EndsSound y
      → EndsSound (if open' then x else y)
  branches-Sound true x y h h' = h refl
  branches-Sound false x y h h' = h'

  call-Sound :
      {A : Type 0} (refusal : A) (call : AdvancedDb Stmt → S → Option (AdvancedDb Stmt × S × A))
      (r : DbRuntime Stmt Other) (s : S)
      → Sound r
      → EndsSound (when_connected refusal call r s)
  unfolding when_connected EndsSound Sound HasDb
  call-Sound refusal call r s h =
      branches-Sound r.conn_manager.opened (with_advanced_db r.advanced_db (λ adb. call adb s) r)
        (returned (r, s, refusal))
        (λ is_open. with_db-Sound r.advanced_db (λ adb. call adb s) r (h is_open)) h

  later-Sound : {r q : DbRuntime Stmt Other} → Later pool r q → Sound r → Sound q
  unfolding connect disconnect EndsSound
  later-Sound unchanged h = h
  later-Sound (connecting {q} l s) h =
      connect-Sound q (open_db pool q.conn_manager s) (open-Fails pool q.conn_manager s)
        (later-Sound l h)
  later-Sound (disconnecting {q} {q'} l s s' e eq) h =
      disconnect-Sound q q' s s' e (close_db pool q.conn_manager s) refl eq (later-Sound l h)
  later-Sound (calling {q} l refusal call s s' a eq) h =
      subst EndsSound eq (call-Sound refusal call q s (later-Sound l h))

  not_nil :
      {A : Type 0} (x : Ended (DbRuntime Stmt Other × S × A)) → EndsSound x → x ≢ nil_dereference
  unfolding EndsSound
  not_nil x h e = subst EndsSound e h

  Sound-new :
      (now : ℕ) (c : RuntimeConfig) (r : DbRuntime Stmt Other) → r ≡ new_db_runtime now c → Sound r
  unfolding Sound HasDb new_db_runtime new_connection_manager
  Sound-new now c r e is_open =
      absurd (false_not_true (ap (λ x. x.conn_manager.opened) (sym e) ∙ is_open))

  -- On a runtime made by NewDBRuntime, after any calls of Connect, Disconnect and of the guarded
  -- operations that return, no guarded operation dereferences a nil AdvancedDB.
  pub never_nil :
      {A : Type 0} (now : ℕ) (c : RuntimeConfig) (q : DbRuntime Stmt Other) (refusal : A)
      (call : AdvancedDb Stmt → S → Option (AdvancedDb Stmt × S × A)) (s : S)
      → Later pool (new_db_runtime now c) q
      → when_connected refusal call q s ≢ nil_dereference
  never_nil now c q refusal call s l =
      not_nil (when_connected refusal call q s)
        (call-Sound refusal call q s (later-Sound l (Sound-new now c (new_db_runtime now c) refl)))

  -- A runtime that is connected has its AdvancedDB.
  pub connected_db :
      (now : ℕ) (c : RuntimeConfig) (q : DbRuntime Stmt Other)
      → Later pool (new_db_runtime now c) q
      → q.conn_manager.opened ≡ true
      → (adb : AdvancedDb Stmt) × (q.advanced_db ≡ some adb)
  unfolding Sound HasDb
  connected_db now c q l is_open =
      some-of q.advanced_db (later-Sound l (Sound-new now c (new_db_runtime now c) refl) is_open)
