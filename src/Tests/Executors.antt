-- ===== src/Tests/Executors.antt =====
-- The theorems on QueryExecutor.
use fluxor_db.Base.{ℕ, suc, ◌+◌, ◌==◌, ◌≡◌, ◌↔◌, refl, Option, none, some, [], ◌∷◌, if◌then◌else◌}
use fluxor_db.Base.Int.{pos}
use fluxor_db.Errors.{Err, Result, ok, message, wrapped}
use fluxor_db.Runtime.Lifecycle as Runtime
use fluxor_db.Runtime.Lifecycle.{DbRuntime, Ended}
use fluxor_db.Utils.Executor
use fluxor_db.Utils.Executor.{Cursor}
use fluxor_db.Utils.Executor.Selected
use fluxor_db.Tests.Lifecycles.{in_use}
use fluxor_db.Tests.Settings.{moment}

abbrev three : ℕ → ℕ × Result (Cursor ℕ)
three n = (suc n, ok (record { rows = 4 ∷ 5 ∷ 6 ∷ []; final = none }))

-- scanFunc adds the rows up, and refuses a seven.
abbrev add_up : ℕ → ℕ → ℕ × Option Err
add_up r x = if r == 7 then (x, some (message "seven")) else (x + r, none)

abbrev left_by : {A : Type 0} → Ended (DbRuntime ℕ ℕ × ℕ × A) → DbRuntime ℕ ℕ
left_by Ended.nil_dereference = in_use
left_by Ended.blocked = in_use
left_by (Ended.returned (r, _, _)) = r

abbrev after_query : DbRuntime ℕ ℕ
after_query = left_by (Runtime.query (λ e r. pos 0) (λ b. b) three moment in_use 3)

select-Scans_example :
    (Executor.select (λ e r. pos 0) (λ b. b) moment three add_up 0 in_use 3
      ≡ Ended.returned (after_query, 4, 15, none))
    ↔ ((cursor : Cursor ℕ) × (Runtime.query (λ e r. pos 0) (λ b. b) three moment in_use 3
          ≡ Ended.returned (after_query, 4, ok cursor))
        × (cursor.final ≡ none)
        × Selected.Scans add_up cursor.rows 0 15)
select-Scans_example =
    Selected.select-Scans (λ e r. pos 0) (λ b. b) moment three add_up 0 15 in_use after_query 3 4

-- The first row that scanFunc refuses ends the loop.
stops :
    Executor.select_loop add_up none (4 ∷ 7 ∷ 5 ∷ []) 0
    ≡ (4, some (wrapped "scan failed: " (message "seven") ""))
unfolding Executor.select_loop Executor.scan_next
stops = refl

takes : Executor.select_loop add_up none (4 ∷ 5 ∷ 6 ∷ []) 0 ≡ (15, none)
unfolding Executor.select_loop Executor.scan_next
takes = refl
