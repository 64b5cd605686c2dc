-- ===== src/Cache/Invariant.antt =====
-- cache.go: no key twice, and never more entries than the capacity.
use fluxor_db.Base.{
  ℕ, ◌≤◌, ◌<◌, ◌≡◌, ◌∙◌, ap, sym, refl, String, List, [], ◌∷◌, length, arith, Option-cases, inl,
  inr, leb, if◌then◌else◌,
}
use fluxor_db.Base.Int.{ℤ}
use fluxor_db.Cache.{
  CacheItem, InMemoryCache, find, drop_back, get, set, delete, evict_from, make_room, purge_expired,
  new_in_memory_cache,
}
use fluxor_db.Cache.Entries.{
  Distinct, Absent, find-Absent, remove_self, remove-Distinct, drop_back-Distinct, drop_back-Absent,
  length-drop_back, length-remove, length-remove-le, find-key, purge-Distinct, length-purge,
}

pub record IsValid {ℓ} {V : Type ℓ} (c : InMemoryCache V) : Type 0 where
  pub positive : 0 < c.capacity
  pub bounded : length c.ll ≤ c.capacity
  pub distinct : Distinct c.ll

-- What a client calls, at the times that it meets.
pub data Call {ℓ} (V : Type ℓ) : Type ℓ where
  gets : ℕ → String → Call V
  sets : ℕ → String → V → ℤ → Call V
  deletes : String → Call V
  purges : ℕ → Call V

module _ {ℓ} {V : Type ℓ} where
  unfoldable pub step : InMemoryCache V → Call V → InMemoryCache V
  step c (gets now key) = (get now key c).0
  step c (sets now key v ttl) = set now key v ttl c
  step c (deletes key) = delete key c
  step c (purges now) = purge_expired now c

  unfoldable pub run : List (Call V) → InMemoryCache V → InMemoryCache V
  run [] c = c
  run (call ∷ calls) c = run calls (step c call)

  pub new_in_memory_cache-IsValid :
      (capacity ttl : ℤ) → IsValid (new_in_memory_cache {V = V} capacity ttl)
  unfolding new_in_memory_cache
  new_in_memory_cache-IsValid capacity ttl = ground arith

  get-IsValid :
      (now : ℕ) (key : String) (c : InMemoryCache V) → IsValid c → IsValid (get now key c).0
  unfolding get
  get-IsValid now key c v = elim (Option-cases (find key c.ll)) [
    | inl miss ↦ rw (miss, get) (ground arith)
    | inr (i, hit) ↦
        rw (hit, get)
          (ground (
            arith,
            remove_self i.key c.ll v.distinct,
            remove-Distinct key c.ll v.distinct,
            length-remove key c.ll i hit,
            length-remove-le key c.ll,
            find-key key c.ll i hit,
          ))
  ]

  evict_from_lem :
      (l : List (CacheItem V)) (c : InMemoryCache V)
      → c.ll ≡ l
      → (evict_from l c).ll ≡ drop_back c.ll
  unfolding evict_from drop_back
  evict_from_lem [] c e = e ∙ ap drop_back (sym e)
  evict_from_lem (i ∷ l) c e = rw e

  evict_from-capacity :
      (l : List (CacheItem V)) (c : InMemoryCache V)
      → ((evict_from l c).capacity ≡ c.capacity) × ((evict_from l c).default_ttl ≡ c.default_ttl)
  unfolding evict_from
  evict_from-capacity [] c = (refl, refl)
  evict_from-capacity (i ∷ l) c = (refl, refl)

  -- A full cache loses its back, another loses nothing.
  pub make_room-ll :
      (c : InMemoryCache V)
      → (make_room c).ll ≡ (if leb c.capacity (length c.ll) then drop_back c.ll else c.ll)
  unfolding make_room
  make_room-ll c = ground (arith, evict_from_lem c.ll c refl)

  pub make_room-capacity :
      (c : InMemoryCache V)
      → ((make_room c).capacity ≡ c.capacity) × ((make_room c).default_ttl ≡ c.default_ttl)
  unfolding make_room
  make_room-capacity c = ground (arith, evict_from-capacity c.ll c)

  make_room-IsValid :
      (key : String) (c : InMemoryCache V)
      → IsValid c
      → Absent key c.ll
      → (length (make_room c).ll < c.capacity)
        × ((make_room c).capacity ≡ c.capacity)
        × Distinct (make_room c).ll
        × Absent key (make_room c).ll
  make_room-IsValid key c v a = ground (
    arith,
    make_room-ll c,
    make_room-capacity c,
    length-drop_back c.ll,
    drop_back-Distinct c.ll v.distinct,
    drop_back-Absent key c.ll a,
  )

  set-IsValid :
      (now : ℕ) (key : String) (x : V) (ttl : ℤ) (c : InMemoryCache V)
      → IsValid c
      → IsValid (set now key x ttl c)
  unfolding set
  set-IsValid now key x ttl c v = elim (Option-cases (find key c.ll)) [
    | inl miss ↦
        rw (miss, set) (ground (arith, make_room-IsValid key c v (find-Absent key c.ll miss)))
    | inr (i, hit) ↦
        rw (hit, set)
          (ground (
            arith,
            remove_self i.key c.ll v.distinct,
            remove-Distinct key c.ll v.distinct,
            length-remove key c.ll i hit,
            find-key key c.ll i hit,
          ))
  ]

  pub step-IsValid : (c : InMemoryCache V) (call : Call V) → IsValid c → IsValid (step c call)
  unfolding step delete purge_expired
  step-IsValid c (gets now key) v = get-IsValid now key c v
  step-IsValid c (sets now key x ttl) v = set-IsValid now key x ttl c v
  step-IsValid c (deletes key) v = record {
    positive = v.positive;
    bounded = omega (arith, v.bounded, length-remove-le key c.ll);
    distinct = remove-Distinct key c.ll v.distinct;
  }
  step-IsValid c (purges now) v = record {
    positive = v.positive;
    bounded = omega (arith, v.bounded, length-purge now c.ll);
    distinct = purge-Distinct now c.ll v.distinct;
  }

  -- Whatever is called on it.
  pub run-IsValid :
      (calls : List (Call V)) (c : InMemoryCache V) → IsValid c → IsValid (run calls c)
  unfolding run
  run-IsValid [] c v = v
  run-IsValid (call ∷ calls) c v = run-IsValid calls (step c call) (step-IsValid c call v)

  -- A new cache of any configuration, after any sequence of Get, Set, Delete and PurgeExpired at
  -- any times, holds no more entries than its capacity, which is positive, and no key twice.
  pub run_new-IsValid :
      (capacity ttl : ℤ) (calls : List (Call V))
      → IsValid (run calls (new_in_memory_cache capacity ttl))
  run_new-IsValid capacity ttl calls =
      run-IsValid calls (new_in_memory_cache capacity ttl)
        (new_in_memory_cache-IsValid capacity ttl)
