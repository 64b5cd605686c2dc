-- ===== src/Runtime.antt =====
-- dbruntime.go: the cache of NewDBRuntime, and QueryCached. The runtime's Query is a function on a
-- state `S`. The cache holds values of any type; `foreign` is one that is no result of QueryCached.
pub mod Cached
pub mod Lifecycle
pub mod Connected
pub mod Disconnected
pub mod Recovery
pub mod Diagnosed
use fluxor_db.Base.{ℕ, String, Bool, true, false, ◌||◌, Option, none, some, str_eq, if◌then◌else◌}
use fluxor_db.Base.Int.{ℤ, pos, is_pos}
use fluxor_db.Errors.{Result, ok, err, ◌>>=◌}
use fluxor_db.Cache
use fluxor_db.Cache.{InMemoryCache}
use fluxor_db.Config.{RuntimeConfig}
use fluxor_db.Tcp.Rows.{Rows, QueryResult, read_rows}

pub data CacheValue (Other : Type 0) : Type 0 where
  materialized : QueryResult Other → CacheValue Other
  foreign : CacheValue Other

unfoldable pub new_cache :
    {Other : Type 0} → RuntimeConfig → Option (InMemoryCache (CacheValue Other))
new_cache config =
    if config.enable_aggressive_caching || config.in_memory_mode
    then some (
        Cache.new_in_memory_cache
          (if is_pos config.cache_capacity then config.cache_capacity else pos 10000)
          (if is_pos config.cache_default_ttl then config.cache_default_ttl else pos 300000000000))
    else none

-- What QueryCached leaves: the cache, the database, the rows and whether they are from the cache.
pub record Answer (Other S : Type 0) : Type 0 where
  pub cache : Option (InMemoryCache (CacheValue Other))
  pub state : S
  pub result : Result (QueryResult Other × Bool)

module _ {Other S : Type 0} (query : S → S × Result (Rows Other)) where
  -- The rows are stored at the time `stored`.
  store :
      ℕ
      → String
      → ℤ
      → Option (InMemoryCache (CacheValue Other))
      → Result (QueryResult Other)
      → Option (InMemoryCache (CacheValue Other))
  store stored key ttl none r = none
  store stored key ttl (some c) (err e) = some c
  store stored key ttl (some c) (ok q) =
      if str_eq key "" then some c else some (Cache.set stored key (materialized q) ttl c)

  -- From the query on.
  unfoldable pub run_query :
      ℕ → String → ℤ → Option (InMemoryCache (CacheValue Other)) → S → Answer Other S
  unfolding store
  run_query stored key ttl cache s =
      let (s', answer) = query s in
      let r = answer >>= read_rows in
      record { cache = store stored key ttl cache r; state = s'; result = r >>= λ q. ok (q, false) }

  looked_up :
      ℕ
      → String
      → ℤ
      → S
      → InMemoryCache (CacheValue Other) × Option (CacheValue Other)
      → Answer Other S
  looked_up stored key ttl s (c, some (materialized q)) = record {
    cache = some c;
    state = s;
    result = ok (q, true);
  }
  looked_up stored key ttl s (c, some foreign) = run_query stored key ttl (some c) s
  looked_up stored key ttl s (c, none) = run_query stored key ttl (some c) s

  -- `now` is the time of the look-up.
  unfoldable pub query_cached :
      ℕ → ℕ → String → ℤ → Option (InMemoryCache (CacheValue Other)) → S → Answer Other S
  unfolding looked_up
  query_cached now stored key ttl none s = run_query stored key ttl none s
  query_cached now stored key ttl (some c) s =
      if str_eq key ""
      then run_query stored key ttl (some c) s
      else looked_up stored key ttl s (Cache.get now key c)
