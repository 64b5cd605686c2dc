-- ===== src/Cache/Near.antt =====
-- cache.go: how far from the front of the list an entry is after calls for other keys.
use fluxor_db.Base.{
  ℕ, zero, suc, ◌<◌, ◌≡◌, ◌≢◌, refl, String, Option, none, some, List, [], ◌∷◌, eq_iff, eq_refl,
  str_eq, leb, length, arith, Option-cases, Bool-cases, inl, inr, if◌then◌else◌,
}
use fluxor_db.Base.Dict.{str_eq-false}
use fluxor_db.Base.Int.{ℤ}
use fluxor_db.Cache.{
  CacheItem, InMemoryCache, find, remove, drop_back, get, set, make_room, is_past, effective_expire,
}
use fluxor_db.Cache.Entries.{find-key}
use fluxor_db.Cache.Invariant.{make_room-ll, make_room-capacity}

module _ {ℓ} {V : Type ℓ} where
  -- The entry of the key among the first entries.
  pub seek : ℕ → String → List (CacheItem V) → Option (CacheItem V)
  seek zero key l = none
  seek (suc n) key [] = none
  seek (suc n) key (j ∷ l) = let rest = seek n key l in if str_eq j.key key then some j else rest

  pub seek-suc :
      (n : ℕ) (key : String) (l : List (CacheItem V)) (i : CacheItem V)
      → seek n key l ≡ some i
      → seek (suc n) key l ≡ some i
  unfolding seek
  seek-suc zero key l i h = cc
  seek-suc (suc n) key [] i h = cc
  seek-suc (suc n) key (j ∷ l) i h = ground (arith, seek-suc n key l i)

  pub find-seek :
      (n : ℕ) (key : String) (l : List (CacheItem V)) (i : CacheItem V)
      → seek n key l ≡ some i
      → find key l ≡ some i
  unfolding seek find
  find-seek zero key l i h = cc
  find-seek (suc n) key [] i h = cc
  find-seek (suc n) key (j ∷ l) i h = ground (arith, find-seek n key l i)

  seek-remove :
      (n : ℕ) (key other : String) (l : List (CacheItem V)) (i : CacheItem V)
      → other ≢ key
      → seek n key l ≡ some i
      → seek n key (remove other l) ≡ some i
  unfolding seek remove
  seek-remove zero key other l i ne h = cc
  seek-remove (suc n) key other [] i ne h = cc
  seek-remove (suc n) key other (j ∷ l) i ne h = ground (
    arith,
    seek-remove n key other l i ne,
    seek-suc n key l i,
    (eq_iff j.key other).0,
    (eq_iff j.key key).0,
    str_eq-false other key ne,
  )

  seek-drop_back :
      (n : ℕ) (key : String) (l : List (CacheItem V)) (i : CacheItem V)
      → n < length l
      → seek n key l ≡ some i
      → seek n key (drop_back l) ≡ some i
  unfolding seek drop_back
  seek-drop_back zero key l i few h = cc
  seek-drop_back (suc n) key [] i few h = cc
  seek-drop_back (suc n) key (j ∷ []) i few h = absurd (omega arith)
  seek-drop_back (suc n) key (j ∷ k ∷ l) i few h = ground (arith, seek-drop_back n key (k ∷ l) i)

  seek-cons :
      (n : ℕ) (key : String) (j : CacheItem V) (l : List (CacheItem V)) (i : CacheItem V)
      → j.key ≢ key
      → seek n key l ≡ some i
      → seek (suc n) key (j ∷ l) ≡ some i
  unfolding seek
  seek-cons n key j l i ne h = rw (str_eq-false j.key key ne) h

  -- Get of another key takes the entry at most one place back, and none if it finds nothing.
  pub seek-get :
      (n now : ℕ) (key other : String) (c : InMemoryCache V) (i : CacheItem V)
      → other ≢ key
      → seek n key c.ll ≡ some i
      → (seek (suc n) key (get now other c).0.ll ≡ some i)
        × ((get now other c).1 ≡ none → seek n key (get now other c).0.ll ≡ some i)
        × ((get now other c).0.capacity ≡ c.capacity)
  unfolding get
  seek-get n now key other c i ne h = elim (Option-cases (find other c.ll)) [
    | inl miss ↦ rw (miss, get) (seek-suc n key c.ll i h, λ _. h, refl)
    | inr (j, hit) ↦ elim (Bool-cases (is_past now j.expire_at)) [
      | inl past ↦
          let left = seek-remove n key other c.ll i ne h in
          rw (hit, get, past) (seek-suc n key (remove other c.ll) i left, λ _. left, refl)
      | inr fresh ↦
          let left = seek-remove n key other c.ll i ne h in
          let ne' : j.key ≢ key = rw (find-key other c.ll j hit) ne in
          rw (hit, get, fresh) (seek-cons n key j (remove other c.ll) i ne' left, λ e. cc, refl)
    ]
  ]

  seek-make_room :
      (n : ℕ) (key : String) (c : InMemoryCache V) (i : CacheItem V)
      → n < c.capacity
      → seek n key c.ll ≡ some i
      → seek n key (make_room c).ll ≡ some i
  seek-make_room n key c i few h = elim (Bool-cases (leb c.capacity (length c.ll))) [
    | inl full ↦ rw (make_room-ll c, full) (seek-drop_back n key c.ll i (ground arith) h)
    | inr room ↦ rw (make_room-ll c, room) h
  ]

  -- Set of another key takes it at most one place back, as long as it is not at the end of a full
  -- cache.
  pub seek-set :
      (n now : ℕ) (key other : String) (x : V) (ttl : ℤ) (c : InMemoryCache V) (i : CacheItem V)
      → other ≢ key
      → n < c.capacity
      → seek n key c.ll ≡ some i
      → (seek (suc n) key (set now other x ttl c).ll ≡ some i)
        × ((set now other x ttl c).capacity ≡ c.capacity)
  unfolding set
  seek-set n now key other x ttl c i ne few h = elim (Option-cases (find other c.ll)) [
    | inl miss ↦
        rw (miss, set)
          (
            seek-cons n key _ (make_room c).ll i ne (seek-make_room n key c i few h),
            (make_room-capacity c).0,
          )
    | inr (j, hit) ↦
        let ne' : j.key ≢ key = rw (find-key other c.ll j hit) ne in
        rw (hit, set)
          (seek-cons n key _ (remove other c.ll) i ne' (seek-remove n key other c.ll i ne h), refl)
  ]

  -- Set leaves its key's entry at the front.
  pub seek-set_self :
      (now : ℕ) (key : String) (x : V) (ttl : ℤ) (c : InMemoryCache V)
      → (seek 1 key (set now key x ttl c).ll
          ≡ some
              (record { key = key; value = x; expire_at = effective_expire now c.default_ttl ttl }))
        × ((set now key x ttl c).capacity ≡ c.capacity)
  unfolding set seek
  seek-set_self now key x ttl c = elim (Option-cases (find key c.ll)) [
    | inl miss ↦ rw (miss, set) (ground (arith, eq_refl key), (make_room-capacity c).0)
    | inr (i, hit) ↦ rw (hit, set) (ground (arith, find-key key c.ll i hit, eq_refl key), refl)
  ]
