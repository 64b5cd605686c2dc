-- ===== src/Cache.antt =====
-- cache.go: InMemoryCache, a least-recently-used cache with expiry, over any type of values.
--
-- `ll` is the linked list, front first. The map `items` holds, for each key, the list element whose
-- item has that key; the two change together under the lock, so a look-up in the map is `find` in
-- the list. A time is nanoseconds, and the zero time is 0. A counter is a uint64.
pub mod Entries
pub mod Invariant
pub mod Reads
pub mod Near
pub mod Linked
use fluxor_db.Base.{
  ℕ, zero, suc, ◌+◌, ◌≡◌, String, Bool, true, false, ◌&&◌, not, Option, none, some, List, [], ◌∷◌,
  str_eq, ltb, leb, ◌==◌, if◌then◌else◌, length,
}
use fluxor_db.Base.Int.{ℤ, pos_part, is_pos, uint64}

pub record CacheItem {ℓ} (V : Type ℓ) : Type ℓ where
  pub key : String
  pub value : V
  pub expire_at : ℕ

pub record InMemoryCache {ℓ} (V : Type ℓ) : Type ℓ where
  pub ll : List (CacheItem V)
  pub capacity : ℕ
  pub default_ttl : ℤ
  pub hits : ℕ
  pub misses : ℕ
  pub evictions : ℕ
  pub expired_count : ℕ

pub record CacheStats : Type 0 where
  pub items : ℕ
  pub capacity : ℕ
  pub hits : ℕ
  pub misses : ℕ
  pub evictions : ℕ
  pub expired_count : ℕ

-- `!expireAt.IsZero() && now.After(expireAt)`
unfoldable pub is_past : ℕ → ℕ → Bool
is_past now expire_at = not (expire_at == 0) && ltb expire_at now

unfoldable pub effective_expire : ℕ → ℤ → ℤ → ℕ
effective_expire now default_ttl ttl =
    if is_pos ttl
    then now + pos_part ttl
    else if is_pos default_ttl
    then now + pos_part default_ttl
    else 0

module _ {ℓ} {V : Type ℓ} where
  unfoldable pub new_in_memory_cache : ℤ → ℤ → InMemoryCache V
  new_in_memory_cache capacity default_ttl = record {
    ll = [];
    capacity = if is_pos capacity then pos_part capacity else 1024;
    default_ttl = default_ttl;
    hits = 0;
    misses = 0;
    evictions = 0;
    expired_count = 0;
  }

  -- The map look-up, and the removal of an element from the list.
  unfoldable pub find : String → List (CacheItem V) → Option (CacheItem V)
  find key [] = none
  find key (i ∷ l) = if str_eq i.key key then some i else find key l

  unfoldable pub remove : String → List (CacheItem V) → List (CacheItem V)
  remove key [] = []
  remove key (i ∷ l) = if str_eq i.key key then l else i ∷ remove key l

  -- The list without its back.
  unfoldable pub drop_back : List (CacheItem V) → List (CacheItem V)
  drop_back [] = []
  drop_back (i ∷ []) = []
  drop_back (i ∷ j ∷ l) = i ∷ drop_back (j ∷ l)

  get_found : ℕ → String → InMemoryCache V → Option (CacheItem V) → InMemoryCache V × Option V
  get_found now key c none = (record c { misses = uint64 (c.misses + 1) }, none)
  get_found now key c (some i) =
      if is_past now i.expire_at
      then (
        record c {
          ll = remove key c.ll;
          expired_count = uint64 (c.expired_count + 1);
          misses = uint64 (c.misses + 1);
        },
        none,
      )
      else (record c { ll = i ∷ remove key c.ll; hits = uint64 (c.hits + 1) }, some i.value)

  unfoldable pub get : ℕ → String → InMemoryCache V → InMemoryCache V × Option V
  unfolding get_found
  get now key c = get_found now key c (find key c.ll)

  -- `if c.ll.Len() >= c.capacity`: the back goes, if there is one.
  unfoldable pub evict_from : List (CacheItem V) → InMemoryCache V → InMemoryCache V
  evict_from [] c = c
  evict_from (i ∷ l) c = record c { ll = drop_back (i ∷ l); evictions = uint64 (c.evictions + 1) }

  unfoldable pub make_room : InMemoryCache V → InMemoryCache V
  unfolding evict_from
  make_room c = if leb c.capacity (length c.ll) then evict_from c.ll c else c

  set_found : ℕ → String → V → ℤ → InMemoryCache V → Option (CacheItem V) → InMemoryCache V
  unfolding make_room
  set_found now key v ttl c (some i) = record c {
    ll =
        record i { value = v; expire_at = effective_expire now c.default_ttl ttl }
        ∷ remove key c.ll;
  }
  set_found now key v ttl c none =
      let c' = make_room c in
      record c' {
        ll =
            record { key = key; value = v; expire_at = effective_expire now c.default_ttl ttl }
            ∷ c'.ll;
      }

  -- Set always returns true.
  unfoldable pub set : ℕ → String → V → ℤ → InMemoryCache V → InMemoryCache V
  unfolding set_found
  set now key v ttl c = set_found now key v ttl c (find key c.ll)

  unfoldable pub delete : String → InMemoryCache V → InMemoryCache V
  delete key c = record c { ll = remove key c.ll }

  -- The loop of PurgeExpired, from the back: what is kept, and the number removed.
  unfoldable pub purge : ℕ → List (CacheItem V) → List (CacheItem V) × ℕ
  purge now [] = ([], 0)
  purge now (i ∷ l) =
      let (kept, removed) = purge now l in
      if is_past now i.expire_at then (kept, suc removed) else (i ∷ kept, removed)

  unfoldable pub purge_expired : ℕ → InMemoryCache V → InMemoryCache V
  purge_expired now c =
      let (kept, removed) = purge now c.ll in
      record c { ll = kept; expired_count = uint64 (c.expired_count + removed) }

  unfoldable pub stats : InMemoryCache V → CacheStats
  stats c = record {
    items = length c.ll;
    capacity = c.capacity;
    hits = c.hits;
    misses = c.misses;
    evictions = c.evictions;
    expired_count = c.expired_count;
  }
