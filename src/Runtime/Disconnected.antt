-- ===== src/Runtime/Disconnected.antt =====
-- dbruntime.go: the runtime after a Disconnect that reports no error.
use mathlib.Core.Path.{subst}
use mathlib.Core.Option.{some-injective}
use fluxor_db.Base.{
  ◌≡◌, refl, sym, ap, ◌∙◌, Bool, true, false, Option, none, some, if◌then◌else◌, none_not_some,
}
use fluxor_db.Db.{AdvancedDb}
use fluxor_db.Errors.{Err}
use fluxor_db.Manager.{ConnectionManager, close_db, closes, close_pool, closed, LeakDetector}
use fluxor_db.Manager.Validator.{Pool}
use fluxor_db.Runtime.Lifecycle.{
  DbRuntime, returned, closed_as, disconnect, with_advanced_db, when_connected,
}

branch : {A : Type 0} (b : Bool) → b ≡ false → (x y : A) → (if b then x else y) ≡ y
branch b h x y = rw h refl

module _ {Ctx S : Type 0} (pool : Pool Ctx S) where
  abbrev IsShut : ConnectionManager × S × Option Err → Type 0
  IsShut x = x.2 ≡ none → x.0.opened ≡ false

  closed-IsShut : (cm : ConnectionManager) (x : S × Option Err) → IsShut (closed pool cm x)
  unfolding closed
  closed-IsShut cm (s, some e) h = absurd (none_not_some _ (sym h))
  closed-IsShut cm (s, none) h = refl

  branches-IsShut :
      (open' : Bool) (x y : ConnectionManager × S × Option Err)
      → IsShut x
      → (open' ≡ false → IsShut y)
      → IsShut (if open' then x else y)
  branches-IsShut true x y h h' = h
  branches-IsShut false x y h h' = h' refl

  close_pool-IsShut : (cm : ConnectionManager) (s : S) → IsShut (close_pool pool cm s)
  unfolding close_pool
  close_pool-IsShut cm s =
      branches-IsShut cm.opened (closed pool cm (pool.close_db s)) _
        (closed-IsShut cm (pool.close_db s)) (λ shut _. shut)

  closes-IsShut :
      (cm : ConnectionManager) (s : S) (o : Option (Option LeakDetector))
      (x : ConnectionManager × S × Option Err)
      → closes pool cm s o ≡ some x
      → IsShut x
  closes-IsShut cm s none x e = absurd (none_not_some x e)
  closes-IsShut cm s (some d) x e =
      subst IsShut (some-injective _ x e) (close_pool-IsShut (record cm { leak_detector = d }) s)

  module _ {Stmt Other : Type 0} where
    closed_as-opened :
        (r r' : DbRuntime Stmt Other) (s s' : S) (o : Option (ConnectionManager × S × Option Err))
        → close_db pool r.conn_manager s ≡ o
        → closed_as pool r o ≡ some (r', s', none)
        → r'.conn_manager.opened ≡ false
    unfolding close_db
    closed_as-opened r r' s s' none eq eq' = absurd (none_not_some _ eq')
    closed_as-opened r r' s s' (some (cm, t, e)) eq eq' =
        let same = some-injective _ _ eq' in
        ap (λ (x : DbRuntime Stmt Other × S × Option Err). x.0.conn_manager.opened) (sym same)
        ∙ closes-IsShut r.conn_manager s _ (cm, t, e) eq
            (ap (λ (x : DbRuntime Stmt Other × S × Option Err). x.2) same)

    -- After a Disconnect that reports no error, every guarded operation of the runtime answers its
    -- refusal and leaves the runtime and the database as they were.
    pub disconnect-refuses :
        {A : Type 0} (r r' : DbRuntime Stmt Other) (s s' s'' : S) (refusal : A)
        (call : AdvancedDb Stmt → S → Option (AdvancedDb Stmt × S × A))
        → disconnect pool r s ≡ some (r', s', none)
        → when_connected refusal call r' s'' ≡ returned (r', s'', refusal)
    unfolding disconnect when_connected
    disconnect-refuses r r' s s' s'' refusal call e =
        let shut = closed_as-opened r r' s s' (close_db pool r.conn_manager s) refl e in
        branch r'.conn_manager.opened shut
          (with_advanced_db r'.advanced_db (λ adb. call adb s'') r') (returned (r', s'', refusal))
