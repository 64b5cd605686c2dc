-- ===== src/Cache/Reads.antt =====
-- cache.go: what can be read after a call.
use fluxor_db.Base.{
  ℕ, ◌≡◌, ◌≢◌, ◌∙◌, ap, sym, refl, String, Bool, true, false, Option, none, some, List, [], ◌∷◌,
  eq_iff, eq_refl, str_eq, length, arith, Option-cases, inl, inr, Bool-cases, leb, ◌&&◌,
  if◌then◌else◌, All,
}
use fluxor_db.Base.Int.{ℤ}
use mathlib.Core.Path.{subst}
use fluxor_db.Cache.{
  CacheItem, InMemoryCache, find, remove, drop_back, get, set, delete, purge, purge_expired,
  is_past, effective_expire,
}
use fluxor_db.Cache.Entries.{
  Distinct, Absent, find-remove_ne, find-key, Absent-find, remove_self, purge-Absent,
}
use fluxor_db.Cache.Invariant.{IsValid, make_room-ll}

abbrev pub is_none {ℓ} : {A : Type ℓ} → Option A → Bool
is_none none = true
is_none (some a) = false

module _ {ℓ} {V : Type ℓ} where
  -- What `get` answers.
  abbrev pub answer : ℕ → Option (CacheItem V) → Option V
  answer now none = none
  answer now (some i) = if is_past now i.expire_at then none else some i.value

  pub get-answer :
      (now : ℕ) (key : String) (c : InMemoryCache V)
      → (get now key c).1 ≡ answer now (find key c.ll)
  unfolding get
  get-answer now key c = ground arith

  -- The entry that `set` leaves for its key.
  find-set_self :
      (now : ℕ) (key : String) (x : V) (ttl : ℤ) (c : InMemoryCache V)
      → find key (set now key x ttl c).ll
        ≡ some (record { key = key; value = x; expire_at = effective_expire now c.default_ttl ttl })
  unfolding set find
  find-set_self now key x ttl c = elim (Option-cases (find key c.ll)) [
    | inl miss ↦ rw (miss, set) (ground (arith, eq_refl key))
    | inr (i, hit) ↦ rw (hit, set) (ground (arith, find-key key c.ll i hit, eq_refl key))
  ]

  -- In any cache, Get of a key that has just been Set gives the value if the expiry that Set
  -- computed is not past at the time of the read, and nothing otherwise.
  pub get-set_self :
      (now later : ℕ) (key : String) (x : V) (ttl : ℤ) (c : InMemoryCache V)
      → (get later key (set now key x ttl c)).1
        ≡ (if is_past later (effective_expire now c.default_ttl ttl) then none else some x)
  get-set_self now later key x ttl c =
      get-answer later key (set now key x ttl c) ∙ ap (answer later) (find-set_self now key x ttl c)

  -- In a valid cache, Get of a key that has just been deleted finds nothing.
  pub get-delete_self :
      (now : ℕ) (key : String) (c : InMemoryCache V)
      → IsValid c
      → (get now key (delete key c)).1 ≡ none
  unfolding delete
  get-delete_self now key c v =
      get-answer now key (delete key c)
      ∙ ap (answer now) (Absent-find key (remove key c.ll) (remove_self key c.ll v.distinct))

  find-get_ne :
      (now : ℕ) (key other : String) (c : InMemoryCache V)
      → other ≢ key
      → find other (get now key c).0.ll ≡ find other c.ll
  unfolding get find
  find-get_ne now key other c h = elim (Option-cases (find key c.ll)) [
    | inl miss ↦ rw (miss, get)
    | inr (i, hit) ↦
        rw (hit, get)
          (ground (
            arith,
            find-remove_ne key other c.ll h,
            find-key key c.ll i hit,
            (eq_iff i.key other).0,
          ))
  ]

  -- Get of one key, which may move or remove its entry, does not change what Get of another key
  -- answers at any time.
  pub get-get_ne :
      (now later : ℕ) (key other : String) (c : InMemoryCache V)
      → other ≢ key
      → (get later other (get now key c).0).1 ≡ (get later other c).1
  get-get_ne now later key other c h =
      get-answer later other (get now key c).0
      ∙ ap (answer later) (find-get_ne now key other c h)
      ∙ sym (get-answer later other c)

  -- PurgeExpired removes what is past and nothing else, in the same order.
  pub purge-All :
      (now : ℕ) (l : List (CacheItem V))
      → All (λ i. is_past now i.expire_at ≡ false) (purge now l).0
  unfolding purge
  purge-All now [] = tt
  purge-All now (i ∷ l) = ground (arith, purge-All now l)

  find-purge :
      (now : ℕ) (key : String) (l : List (CacheItem V))
      → Distinct l
      → answer now (find key (purge now l).0) ≡ answer now (find key l)
  unfolding purge find
  find-purge now key [] d = refl
  find-purge now key (i ∷ l) d = elim (Bool-cases (str_eq i.key key)) [
    | inl same ↦
        let gone : Absent key l = subst (λ k. Absent k l) ((eq_iff i.key key).0 same) d.0 in
        ground (
          arith,
          same,
          Absent-find key l gone,
          Absent-find key (purge now l).0 (purge-Absent key now l gone),
        )
    | inr other ↦ ground (arith, other, find-purge now key l d.1)
  ]

  -- In a valid cache, PurgeExpired changes no answer of Get at the same time, for any key.
  pub get-purge_expired :
      (now : ℕ) (key : String) (c : InMemoryCache V)
      → IsValid c
      → (get now key (purge_expired now c)).1 ≡ (get now key c).1
  unfolding purge_expired
  get-purge_expired now key c v =
      get-answer now key (purge_expired now c)
      ∙ find-purge now key c.ll v.distinct
      ∙ sym (get-answer now key c)

  -- The list that `set` leaves to the other keys: a new key in a full cache costs the back.
  abbrev pub survivors : String → InMemoryCache V → List (CacheItem V)
  survivors key c =
      if is_none (find key c.ll) && leb c.capacity (length c.ll) then drop_back c.ll else c.ll

  find-set_ne :
      (now : ℕ) (key other : String) (x : V) (ttl : ℤ) (c : InMemoryCache V)
      → other ≢ key
      → find other (set now key x ttl c).ll ≡ find other (survivors key c)
  unfolding set find
  find-set_ne now key other x ttl c h = elim (Option-cases (find key c.ll)) [
    | inl miss ↦ rw (miss, set) (ground (arith, make_room-ll c, (eq_iff key other).0, miss))
    | inr (i, hit) ↦
        rw (hit, set)
          (ground (
            arith,
            find-remove_ne key other c.ll h,
            find-key key c.ll i hit,
            (eq_iff i.key other).0,
            hit,
          ))
  ]

  -- After Set of one key, Get of another one answers as its entry says in the list of entries
  -- before, less the back of that list when the key is new and the cache is full.
  pub get-set_ne :
      (now later : ℕ) (key other : String) (x : V) (ttl : ℤ) (c : InMemoryCache V)
      → other ≢ key
      → (get later other (set now key x ttl c)).1 ≡ answer later (find other (survivors key c))
  get-set_ne now later key other x ttl c h =
      get-answer later other (set now key x ttl c)
      ∙ ap (answer later) (find-set_ne now key other x ttl c h)
