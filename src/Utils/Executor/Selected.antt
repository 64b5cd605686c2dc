-- ===== src/Utils/Executor/Selected.antt =====
-- utils.go: what Select has scanned when it returns.
use mathlib.Core.Path.{subst}
use fluxor_db.Base.{◌≡◌, ◌∙◌, refl, ap, sym, ◌↔◌, Option, none, some, List, [], ◌∷◌, none_not_some}
use fluxor_db.Base.Int.{ℤ}
use fluxor_db.Db.{Moment}
use fluxor_db.Errors.{Err, Result, ok, err}
use fluxor_db.Runtime.Lifecycle as Runtime
use fluxor_db.Runtime.Lifecycle.{DbRuntime, Ended, nil_dereference, blocked, returned}
use fluxor_db.Utils.Executor.{Cursor, scan_next, select_loop, selected, select}

module _ {R X : Type 0} (scan : R → X → X × Option Err) where
  -- The rows scanned one after the other, each without an error.
  pub data Scans : List R → X → X → Type 0 where
    scanned : {x : X} → Scans [] x x
    scanning :
        {r : R} {rs : List R} {x x' y : X}
        → scan r x ≡ (x', none)
        → Scans rs x' y
        → Scans (r ∷ rs) x y

  failed : {A : Type 0} (x y : X) (e : Err) → Path (X × Option Err) (x, some e) (y, none) → A
  failed x y e eq = absurd (none_not_some e (sym (ap (λ (p : X × Option Err). p.1) eq)))

  next-cases :
      (next : X → X × Option Err) (z : X × Option Err) (y : X)
      → scan_next next z ≡ (y, none)
      → (x : X) × (z ≡ (x, none)) × (next x ≡ (y, none))
  unfolding scan_next
  next-cases next (x, some e) y eq = failed x y _ eq
  next-cases next (x, none) y eq = (x, refl, eq)

  loop→Scans :
      (final : Option Err) (rs : List R) (x y : X)
      → select_loop scan final rs x ≡ (y, none)
      → Scans rs x y × (final ≡ none)
  unfolding select_loop
  loop→Scans final [] x y eq = (
    subst (Scans [] x) (ap (λ (p : X × Option Err). p.0) eq) scanned,
    ap (λ (p : X × Option Err). p.1) eq,
  )
  loop→Scans final (r ∷ rs) x y eq =
      let (x', h, rest) = next-cases (select_loop scan final rs) (scan r x) y eq in
      let (l, f) = loop→Scans final rs x' y rest in (scanning h l, f)

  next_scan :
      (next : X → X × Option Err) (z : X × Option Err) (x : X)
      → z ≡ (x, none)
      → scan_next next z ≡ next x
  unfolding scan_next
  next_scan next z x h = rw h refl

  Scans→loop : (rs : List R) (x y : X) → Scans rs x y → select_loop scan none rs x ≡ (y, none)
  unfolding select_loop
  Scans→loop [] x _ scanned = refl
  Scans→loop (r ∷ rs) x y (scanning {x' = x'} h l) =
      next_scan (select_loop scan none rs) (scan r x) x' h ∙ Scans→loop rs x' y l

-- The value that an end returns, or another.
value_or : {A : Type 0} → A → Ended A → A
value_or d nil_dereference = d
value_or d blocked = d
value_or d (returned a) = a

returned-injective : {A : Type 0} (a b : A) → Path (Ended A) (returned a) (returned b) → a ≡ b
unfolding value_or
returned-injective a b eq = ap (value_or a) eq

module _ {Stmt Other S R X : Type 0} (scan : R → X → X × Option Err) where
  -- What Select makes of the answer of Query.
  Selects :
      Ended (DbRuntime Stmt Other × S × Result (Cursor R))
      → X
      → DbRuntime Stmt Other
      → S
      → X
      → Type 0
  Selects answer x r s y =
      (cursor : Cursor R) × (answer ≡ returned (r, s, ok cursor))
      × (cursor.final ≡ none)
      × Scans scan cursor.rows x y

  selected→Selects :
      (answer : Ended (DbRuntime Stmt Other × S × Result (Cursor R))) (x y : X)
      (r : DbRuntime Stmt Other) (s : S)
      → selected scan x answer ≡ returned (r, s, y, none)
      → Selects answer x r s y
  unfolding selected Selects
  selected→Selects nil_dereference x y r s eq = cc
  selected→Selects blocked x y r s eq = cc
  selected→Selects (returned (r', s', err e)) x y r s eq = absurd (
      none_not_some _ (
        sym (
          ap (λ (p : DbRuntime Stmt Other × S × X × Option Err). p.3) (returned-injective _ _ eq))))
  selected→Selects (returned (r', s', ok cursor)) x y r s eq =
      let same = returned-injective _ _ eq in
      let (l, f) =
        loop→Scans scan cursor.final cursor.rows x y
          (ap (λ (p : DbRuntime Stmt Other × S × X × Option Err). (p.2, p.3)) same) in
      (
        cursor,
        ap (λ (p : DbRuntime Stmt Other × S × X × Option Err). returned (p.0, p.1, ok cursor)) same,
        f,
        l,
      )

  Selects→selected :
      (answer : Ended (DbRuntime Stmt Other × S × Result (Cursor R))) (x y : X)
      (r : DbRuntime Stmt Other) (s : S)
      → Selects answer x r s y
      → selected scan x answer ≡ returned (r, s, y, none)
  unfolding selected Selects
  Selects→selected answer x y r s (cursor, eq, f, l) =
      let loop =
        ap (λ (o : Option Err). select_loop scan o cursor.rows x) f
        ∙ Scans→loop scan cursor.rows x y l in
      ap (selected scan x) eq ∙ ap (λ (p : X × Option Err). returned (r, s, p.0, p.1)) loop

module _ (added : ℤ → ℤ → ℤ) (scale : ℤ → ℤ) {Stmt Other S R X : Type 0} where
  -- Select returns no error exactly when its query gave rows, Next found them all, and scanFunc took
  -- each of them in their order without an error; what it leaves is what scanFunc made of the rows,
  -- and the runtime and the database are those that the query left.
  pub select-Scans :
      (m : Moment) (call : S → S × Result (Cursor R)) (scan : R → X → X × Option Err) (x y : X)
      (r r' : DbRuntime Stmt Other) (s s' : S)
      → (select added scale m call scan x r s ≡ returned (r', s', y, none)) ↔ (
          (cursor : Cursor R) × (Runtime.query added scale call m r s
            ≡ returned (r', s', ok cursor))
          × (cursor.final ≡ none)
          × Scans scan cursor.rows x y)
  unfolding select Selects
  select-Scans m call scan x y r r' s s' = (
    selected→Selects scan (Runtime.query added scale call m r s) x y r' s',
    Selects→selected scan (Runtime.query added scale call m r s) x y r' s',
  )
