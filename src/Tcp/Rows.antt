-- ===== src/Tcp/Rows.antt =====
-- The loop over the rows of a query, which handleQuery (tcp_server.go) and QueryCached
-- (dbruntime.go) share: what *sql.Rows answers is a value of `Rows`.
use fluxor_db.Base.{String, Option, none, some, List, [], ◌∷◌, map}
use fluxor_db.Errors.{Err, Result, ok, err, ◌>>=◌}

-- A cell: bytes, which become a text, or another value.
pub data Cell (Other : Type 0) : Type 0 where
  bytes text : String → Cell Other
  other : Other → Cell Other

pub record Rows (Other : Type 0) : Type 0 where
  pub columns : Result (List String)
  pub scans : List (Result (List (Cell Other)))  -- each Next and Scan, in order
  pub final : Option Err  -- rows.Err()

pub record QueryResult (Other : Type 0) : Type 0 where
  pub columns : List String
  pub rows : List (List (Cell Other))

abbrev closing : {A : Type 0} → Option Err → A → Result A
closing none a = ok a
closing (some e) a = err e

module _ {Other : Type 0} where
  unfoldable pub to_text : Cell Other → Cell Other
  to_text (bytes b) = text b
  to_text (text t) = text t
  to_text (other x) = other x

  unfoldable pub collect : List (Result (List (Cell Other))) → Result (List (List (Cell Other)))
  unfolding to_text
  collect [] = ok []
  collect (scan ∷ scans) = do values ← scan; rest ← collect scans; ok (map to_text values ∷ rest)

  unfoldable pub read_rows : Rows Other → Result (QueryResult Other)
  unfolding collect
  read_rows r = do
    columns ← r.columns
    rows ← collect r.scans
    closing r.final (record { columns = columns; rows = rows })
