-- ===== src/Cache/Linked.antt =====
-- cache.go: InMemoryCache with both of its structures, the map of keys to list elements and the
-- linked list, as the methods change them one after the other.
--
-- A list element is known by a number; `ll` holds each with its value, front first, and `next` is
-- the number of the next new element. The value of an element that has left the list is not read:
-- a method that would is `none`.
pub mod Elements
pub mod Sound
pub mod Refines
pub mod Writes
pub mod Purged
pub mod Runs
use fluxor_db.Base.{
  ℕ, suc, ◌+◌, String, Bool, true, false, Option, none, some, List, [], ◌∷◌, str_eq, leb, ◌==◌,
  if◌then◌else◌, length, map,
}
use fluxor_db.Base.Dict.{lookup, assign}
use fluxor_db.Base.Int.{ℤ, pos_part, is_pos, uint64}
use fluxor_db.Cache.{CacheItem, InMemoryCache, is_past, effective_expire}

abbrev pub Elements {ℓ} : Type ℓ → Type ℓ
Elements V = List (ℕ × CacheItem V)

pub record LinkedCache {ℓ} (V : Type ℓ) : Type ℓ where
  pub items : List (String × ℕ)
  pub ll : Elements V
  pub next : ℕ
  pub capacity : ℕ
  pub default_ttl : ℤ
  pub hits : ℕ
  pub misses : ℕ
  pub evictions : ℕ
  pub expired_count : ℕ

-- delete(items, key)
unfoldable pub erase : String → List (String × ℕ) → List (String × ℕ)
erase key [] = []
erase key ((k, e) ∷ m) = let rest = erase key m in if str_eq k key then rest else (k, e) ∷ rest

module _ {ℓ} {V : Type ℓ} where
  unfoldable pub new_linked_cache : ℤ → ℤ → LinkedCache V
  new_linked_cache capacity default_ttl = record {
    items = [];
    ll = [];
    next = 0;
    capacity = if is_pos capacity then pos_part capacity else 1024;
    default_ttl = default_ttl;
    hits = 0;
    misses = 0;
    evictions = 0;
    expired_count = 0;
  }

  -- e.Value
  unfoldable pub value : ℕ → Elements V → Option (CacheItem V)
  value e [] = none
  value e ((d, i) ∷ l) = if d == e then some i else value e l

  -- ll.Remove(e)
  unfoldable pub take_out : ℕ → Elements V → Elements V
  take_out e [] = []
  take_out e ((d, i) ∷ l) = if d == e then l else (d, i) ∷ take_out e l

  -- ll.Back()
  unfoldable pub back : Elements V → Option (ℕ × CacheItem V)
  back [] = none
  back (p ∷ []) = some p
  back (p ∷ q ∷ l) = back (q ∷ l)

  -- ll.MoveToFront(e), where the value of e is `i`.
  abbrev pub move_to_front : ℕ → CacheItem V → Elements V → Elements V
  move_to_front e i l = (e, i) ∷ take_out e l

  got : ℕ → String → LinkedCache V → ℕ → Option (CacheItem V) → Option (LinkedCache V × Option V)
  unfolding take_out erase
  got now key c e none = none
  got now key c e (some i) =
      if is_past now i.expire_at
      then some (
        record c {
          ll = take_out e c.ll;
          items = erase key c.items;
          expired_count = uint64 (c.expired_count + 1);
          misses = uint64 (c.misses + 1);
        },
        none,
      )
      else some (record c { ll = move_to_front e i c.ll; hits = uint64 (c.hits + 1) }, some i.value)

  get_from : ℕ → String → LinkedCache V → Option ℕ → Option (LinkedCache V × Option V)
  unfolding got value
  get_from now key c none = some (record c { misses = uint64 (c.misses + 1) }, none)
  get_from now key c (some e) = got now key c e (value e c.ll)

  unfoldable pub get_linked : ℕ → String → LinkedCache V → Option (LinkedCache V × Option V)
  unfolding get_from
  get_linked now key c = get_from now key c (lookup key c.items)

  evicted : LinkedCache V → Option (ℕ × CacheItem V) → LinkedCache V
  unfolding take_out erase
  evicted c none = c
  evicted c (some (e, i)) = record c {
    ll = take_out e c.ll;
    items = erase i.key c.items;
    evictions = uint64 (c.evictions + 1);
  }

  unfoldable pub evict_linked : LinkedCache V → LinkedCache V
  unfolding evicted back
  evict_linked c = if leb c.capacity (length c.ll) then evicted c (back c.ll) else c

  -- PushFront and the entry of the map.
  unfoldable pub pushed : CacheItem V → LinkedCache V → LinkedCache V
  pushed i c = record c {
    ll = (c.next, i) ∷ c.ll;
    items = assign i.key c.next c.items;
    next = suc c.next;
  }

  updated : ℕ → V → ℤ → LinkedCache V → ℕ → Option (CacheItem V) → Option (LinkedCache V)
  unfolding take_out
  updated now v ttl c e none = none
  updated now v ttl c e (some i) = some (record c {
    ll =
        move_to_front e (record i { value = v; expire_at = effective_expire now c.default_ttl ttl })
          c.ll;
  })

  set_from : ℕ → String → V → ℤ → LinkedCache V → Option ℕ → Option (LinkedCache V)
  unfolding updated evict_linked pushed value
  set_from now key v ttl c (some e) = updated now v ttl c e (value e c.ll)
  set_from now key v ttl c none = some (
      pushed (record { key = key; value = v; expire_at = effective_expire now c.default_ttl ttl })
        (evict_linked c))

  unfoldable pub set_linked : ℕ → String → V → ℤ → LinkedCache V → Option (LinkedCache V)
  unfolding set_from
  set_linked now key v ttl c = set_from now key v ttl c (lookup key c.items)

  delete_from : String → LinkedCache V → Option ℕ → LinkedCache V
  unfolding take_out erase
  delete_from key c none = c
  delete_from key c (some e) = record c { ll = take_out e c.ll; items = erase key c.items }

  unfoldable pub delete_linked : String → LinkedCache V → LinkedCache V
  unfolding delete_from
  delete_linked key c = delete_from key c (lookup key c.items)

  -- One turn of the loop of PurgeExpired.
  unfoldable pub visit : ℕ → ℕ × CacheItem V → LinkedCache V → LinkedCache V
  unfolding take_out erase
  visit now (e, i) c =
      if is_past now i.expire_at
      then record c {
        ll = take_out e c.ll;
        items = erase i.key c.items;
        expired_count = uint64 (c.expired_count + 1);
      }
      else c

  -- The loop goes from the back to the front: the elements behind one are visited before it.
  unfoldable pub sweep : ℕ → Elements V → LinkedCache V → LinkedCache V
  unfolding visit
  sweep now [] c = c
  sweep now (p ∷ l) c = visit now p (sweep now l c)

  unfoldable pub purge_linked : ℕ → LinkedCache V → LinkedCache V
  unfolding sweep
  purge_linked now c = sweep now c.ll c

  -- The entries of the list, without the elements and the map.
  abbrev pub items_of : Elements V → List (CacheItem V)
  items_of [] = []
  items_of ((e, i) ∷ l) = i ∷ items_of l

  abbrev pub view : LinkedCache V → InMemoryCache V
  view c = record {
    ll = items_of c.ll;
    capacity = c.capacity;
    default_ttl = c.default_ttl;
    hits = c.hits;
    misses = c.misses;
    evictions = c.evictions;
    expired_count = c.expired_count;
  }
