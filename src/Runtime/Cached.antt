-- ===== src/Runtime/Cached.antt =====
-- dbruntime.go: what QueryCached answers after it has stored a result.
use fluxor_db.Base.{ℕ, ◌≡◌, ◌≢◌, refl, String, true, false, none, some, str_eq, arith}
use fluxor_db.Base.Dict.{str_eq-false}
use fluxor_db.Base.Int.{ℤ}
use fluxor_db.Errors.{Result, ok}
use fluxor_db.Cache
use fluxor_db.Cache.{InMemoryCache, is_past, effective_expire}
use fluxor_db.Cache.Reads.{get-set_self}
use fluxor_db.Tcp.Rows.{Rows, QueryResult, read_rows}
use fluxor_db.Runtime.{CacheValue, query_cached, run_query, materialized}

module _ {Other S : Type 0} (query : S → S × Result (Rows Other)) where
  -- A stored result is found again.
  query_cached_stored :
      (stored later again : ℕ) (key : String) (q : QueryResult Other) (ttl ttl' : ℤ)
      (c : InMemoryCache (CacheValue Other)) (s : S)
      → str_eq key "" ≡ false
      → is_past later (effective_expire stored c.default_ttl ttl) ≡ false
      → let a =
          query_cached query later again key ttl'
            (some (Cache.set stored key (materialized q) ttl c))
            s in
        (a.result ≡ ok (q, true)) × (a.state ≡ s)
  unfolding query_cached
  query_cached_stored stored later again key q ttl ttl' c s named fresh =
      ground (arith, named, fresh, get-set_self stored later key (materialized q) ttl c)

  get-default_ttl :
      (now : ℕ) (key : String) (c : InMemoryCache (CacheValue Other))
      → (Cache.get now key c).0.default_ttl ≡ c.default_ttl
  unfolding Cache.get
  get-default_ttl now key c = ground arith

  -- A miss runs the query and stores its rows.
  query_cached_miss :
      (now stored : ℕ) (key : String) (ttl : ℤ) (c : InMemoryCache (CacheValue Other)) (s s' : S)
      (rows : Rows Other) (q : QueryResult Other)
      → str_eq key "" ≡ false
      → (Cache.get now key c).1 ≡ none
      → query s ≡ (s', ok rows)
      → read_rows rows ≡ ok q
      → query_cached query now stored key ttl (some c) s ≡ record {
        cache = some (Cache.set stored key (materialized q) ttl (Cache.get now key c).0);
        state = s';
        result = ok (q, false);
      }
  unfolding query_cached run_query
  query_cached_miss now stored key ttl c s s' rows q named miss runs reads =
      ground (arith, named, miss, runs, reads)

  -- With a cache, when QueryCached under a nonempty key finds nothing and its query runs and is
  -- read without error, it answers the rows as not cached, and QueryCached under the same key,
  -- called next and before the stored entry has expired, answers the same rows as cached and does
  -- not touch the database.
  pub query_cached_twice :
      (now stored later again : ℕ) (key : String) (ttl ttl' : ℤ)
      (c : InMemoryCache (CacheValue Other)) (s s' s2 : S) (rows : Rows Other)
      (q : QueryResult Other)
      → key ≢ ""
      → (Cache.get now key c).1 ≡ none
      → query s ≡ (s', ok rows)
      → read_rows rows ≡ ok q
      → is_past later (effective_expire stored c.default_ttl ttl) ≡ false
      → let first = query_cached query now stored key ttl (some c) s in
        let second = query_cached query later again key ttl' first.cache s2 in
        (first.result ≡ ok (q, false)) × (second.result ≡ ok (q, true)) × (second.state ≡ s2)
  query_cached_twice now stored later again key ttl ttl' c s s' s2 rows q named miss runs reads
        fresh =
      let some_key : str_eq key "" ≡ false = str_eq-false key "" named in
      let c' = (Cache.get now key c).0 in
      let fresh' : is_past later (effective_expire stored c'.default_ttl ttl) ≡ false =
        rw (get-default_ttl now key c) fresh in
      rw (query_cached_miss now stored key ttl c s s' rows q some_key miss runs reads) (
        let (hit, kept) =
          query_cached_stored stored later again key q ttl ttl' c' s2 some_key fresh' in
        (refl, hit, kept))
