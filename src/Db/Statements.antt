-- ===== src/Db/Statements.antt =====
-- db.go, PreparedStatementCache: the map as a list of pairs with different keys. Put removes the
-- entry that the loop over the map meets first, any of them: `pick` says which.
use fluxor_db.Base.{
  ℕ, zero, suc, ◌+◌, ◌≤◌, ◌<◌, ◌%◌, ◌≡◌, ◌≢◌, String, Option, none, some, List, [], ◌∷◌, map,
  eq_iff, eq_refl, leb, if◌then◌else◌, length, arith,
}
use fluxor_db.Base.Int.{is_pos, pos_part}
use fluxor_db.Base.Dict.{lookup, assign, length-assign, lookup-assign}
use fluxor_db.Db.Config.{DbAdvancedConfig}

pub record PreparedStatementCache (Stmt : Type 0) : Type 0 where
  pub cache : List (String × Stmt)
  pub max_size : ℕ

module _ {Stmt : Type 0} where
  unfoldable pub new_prepared_statement_cache :
      Option DbAdvancedConfig → PreparedStatementCache Stmt
  new_prepared_statement_cache none = record { cache = []; max_size = 100 }
  new_prepared_statement_cache (some c) = record {
    cache = [];
    max_size = if is_pos c.stmt_cache_size then pos_part c.stmt_cache_size else 100;
  }

  -- `delete(psc.cache, k)` for the key that stands at a place.
  delete_at : ℕ → List (String × Stmt) → List (String × Stmt)
  delete_at i [] = []
  delete_at zero (e ∷ m) = m
  delete_at (suc i) (e ∷ m) = e ∷ delete_at i m

  unfoldable pub get : String → PreparedStatementCache Stmt → Option Stmt
  unfolding lookup
  get query psc = lookup query psc.cache

  unfoldable pub put : ℕ → String → Stmt → PreparedStatementCache Stmt → PreparedStatementCache Stmt
  unfolding assign delete_at
  put pick query stmt psc =
      let kept =
        if leb psc.max_size (length psc.cache)
        then delete_at (pick % length psc.cache) psc.cache
        else psc.cache in
      record psc { cache = assign query stmt kept }

  -- The statements that Clear closes, and the empty cache.
  unfoldable pub clear : PreparedStatementCache Stmt → PreparedStatementCache Stmt × List Stmt
  clear psc = (record psc { cache = [] }, map (λ e. e.1) psc.cache)

  length-delete_at :
      (i : ℕ) (m : List (String × Stmt)) → i < length m → length (delete_at i m) + 1 ≡ length m
  unfolding delete_at
  length-delete_at i [] h = absurd (omega arith)
  length-delete_at zero (e ∷ m) h = omega arith
  length-delete_at (suc i) (e ∷ m) h = omega (arith, length-delete_at i m)

  -- Put into a statement cache of a positive size that is not above it leaves it not above it,
  -- whichever entry it evicts, and does not change the size.
  pub put-size :
      (pick : ℕ) (query : String) (stmt : Stmt) (psc : PreparedStatementCache Stmt)
      → 0 < psc.max_size
      → length psc.cache ≤ psc.max_size
      → (length (put pick query stmt psc).cache ≤ psc.max_size)
        × ((put pick query stmt psc).max_size ≡ psc.max_size)
  unfolding put
  put-size pick query stmt psc h k =
      let n = length psc.cache in
      ground (
        arith,
        length-assign query stmt psc.cache,
        length-assign query stmt (delete_at (pick % n) psc.cache),
        length-delete_at (pick % n) psc.cache,
      )

  -- Get of a query whose statement has just been Put gives that statement, whichever entry was
  -- evicted.
  pub get-put_self :
      (pick : ℕ) (query : String) (stmt : Stmt) (psc : PreparedStatementCache Stmt)
      → get query (put pick query stmt psc) ≡ some stmt
  unfolding get put
  get-put_self pick query stmt psc =
      let kept = delete_at (pick % length psc.cache) psc.cache in
      ground (
        arith,
        lookup-assign query query stmt psc.cache,
        lookup-assign query query stmt kept,
        eq_refl query,
      )

  -- In a statement cache that is not full, Put of one query does not change what Get of another
  -- finds.
  pub get-put_ne :
      (pick : ℕ) (query other : String) (stmt : Stmt) (psc : PreparedStatementCache Stmt)
      → length psc.cache < psc.max_size
      → other ≢ query
      → get other (put pick query stmt psc) ≡ get other psc
  unfolding get put
  get-put_ne pick query other stmt psc room differ =
      ground (arith, lookup-assign query other stmt psc.cache, (eq_iff query other).0)
