-- ===== src/Utils/Executor.antt =====
-- utils.go: QueryExecutor's Select, SelectOne and Execute, on a runtime. `R` is a row as the
-- caller's scanFunc sees it, and `X` is what scanFunc writes to.
pub mod Selected
use fluxor_db.Base.{ℕ, String, Option, none, some, List, [], ◌∷◌}
use fluxor_db.Base.Int.{ℤ}
use fluxor_db.Db.{Moment}
use fluxor_db.Errors.{Err, Result, ok, err, wrapped}
use fluxor_db.Runtime.Lifecycle as Runtime
use fluxor_db.Runtime.Lifecycle.{DbRuntime, Ended, nil_dereference, blocked, returned}

-- What *sql.Rows gives: the rows that Next finds, and what Err answers after the last one.
pub record Cursor (R : Type 0) : Type 0 where
  pub rows : List R
  pub final : Option Err

module _ {X : Type 0} where
  -- The test of scanFunc's error; `next` is the rest of the loop.
  unfoldable pub scan_next : (X → X × Option Err) → X × Option Err → X × Option Err
  scan_next next (x, some e) = (x, some (wrapped "scan failed: " e ""))
  scan_next next (x, none) = next x

  unfoldable pub select_loop :
      {R : Type 0} → (R → X → X × Option Err) → Option Err → List R → X → X × Option Err
  unfolding scan_next
  select_loop scan final [] x = (x, final)
  select_loop scan final (r ∷ rs) x = scan_next (select_loop scan final rs) (scan r x)

module _ {Stmt Other S X : Type 0} where
  unfoldable pub selected :
      {R : Type 0}
      → (R → X → X × Option Err)
      → X
      → Ended (DbRuntime Stmt Other × S × Result (Cursor R))
      → Ended (DbRuntime Stmt Other × S × X × Option Err)
  unfolding select_loop
  selected scan x nil_dereference = nil_dereference
  selected scan x blocked = blocked
  selected scan x (returned (r, s, err e)) =
      returned (r, s, x, some (wrapped "query failed: " e ""))
  selected scan x (returned (r, s, ok cursor)) =
      let (x', e) = select_loop scan cursor.final cursor.rows x in returned (r, s, x', e)

  unfoldable pub scanned_one :
      {A : Type 0}
      → (Option A → X → X × Option Err)
      → X
      → Ended (DbRuntime Stmt Other × S × Option A)
      → Ended (DbRuntime Stmt Other × S × X × Option Err)
  scanned_one scan x nil_dereference = nil_dereference
  scanned_one scan x blocked = blocked
  scanned_one scan x (returned (r, s, row)) = let (x', e) = scan row x in returned (r, s, x', e)

module _ (added : ℤ → ℤ → ℤ) (scale : ℤ → ℤ) {Stmt Other S : Type 0} (m : Moment) where
  unfoldable pub select :
      {X R : Type 0}
      → (S → S × Result (Cursor R))
      → (R → X → X × Option Err)
      → X
      → DbRuntime Stmt Other
      → S
      → Ended (DbRuntime Stmt Other × S × X × Option Err)
  unfolding selected
  select call scan x r s = selected scan x (Runtime.query added scale call m r s)

  -- The row of a runtime that is not connected is nil: `none`.
  unfoldable pub select_one :
      {X A : Type 0}
      → (S → S × A)
      → (Option A → X → X × Option Err)
      → X
      → DbRuntime Stmt Other
      → S
      → Ended (DbRuntime Stmt Other × S × X × Option Err)
  unfolding scanned_one
  select_one row scan x r s = scanned_one scan x (Runtime.query_row added scale m row r s)

  unfoldable pub execute :
      {A : Type 0}
      → (S → S × Result A)
      → DbRuntime Stmt Other
      → S
      → Ended (DbRuntime Stmt Other × S × Result A)
  execute call r s = Runtime.exec added scale call m r s
