-- ===== src/Cache/Linked/Runs.antt =====
-- cache.go: a cache with its map and its linked list is the cache of one list of entries.
use mathlib.Core.Path.{subst}
use fluxor_db.Base.{
  ℕ, ◌<◌, ◌≡◌, refl, sym, String, Option, none, some, List, [], ◌∷◌, arith, Option-cases, inl, inr,
}
use fluxor_db.Base.Int.{ℤ, two64, uint64}
use fluxor_db.Cache.{
  CacheItem, InMemoryCache, find, get, set, delete, purge_expired, make_room, evict_from,
  new_in_memory_cache,
}
use fluxor_db.Cache.Invariant.{Call, gets, sets, deletes, purges, step, run}
use fluxor_db.Cache.Linked.{
  LinkedCache, view, new_linked_cache, get_linked, set_linked, delete_linked, purge_linked,
}
use fluxor_db.Base.Dict.{lookup}
use fluxor_db.Cache.Linked.Elements.{handle_of}
use fluxor_db.Cache.Linked.Sound.{IsSound}
use fluxor_db.Cache.Linked.Refines.{Does, get-Does}
use fluxor_db.Cache.Linked.Writes.{Leaves, set-Leaves, delete-Leaves}
use fluxor_db.Cache.Linked.Purged.{purge-Leaves}

module _ {ℓ} {V : Type ℓ} where
  -- What a call answers: Get the value, the others nothing.
  abbrev pub answer : InMemoryCache V → Call V → Option V
  answer c (gets now key) = (get now key c).1
  answer c (sets now key v ttl) = none
  answer c (deletes key) = none
  answer c (purges now) = none

  unfoldable pub answers : List (Call V) → InMemoryCache V → List (Option V)
  answers [] c = []
  answers (call ∷ calls) c = answer c call ∷ answers calls (step c call)

  abbrev silent : Option (LinkedCache V) → Option (LinkedCache V × Option V)
  silent none = none
  silent (some c) = some (c, none)

  unfoldable pub step_linked : Call V → LinkedCache V → Option (LinkedCache V × Option V)
  step_linked (gets now key) c = get_linked now key c
  step_linked (sets now key v ttl) c = silent (set_linked now key v ttl c)
  step_linked (deletes key) c = silent (some (delete_linked key c))
  step_linked (purges now) c = silent (some (purge_linked now c))

  abbrev noted :
      Option V → Option (LinkedCache V × List (Option V)) → Option (LinkedCache V × List (Option V))
  noted a none = none
  noted a (some (c, l)) = some (c, a ∷ l)

  -- The calls one after the other, with their answers.
  unfoldable pub run_linked :
      List (Call V) → LinkedCache V → Option (LinkedCache V × List (Option V))
  run_linked [] c = some (c, [])
  run_linked (call ∷ calls) c = elim (step_linked call c) [
    | none ↦ none
    | some (c', a) ↦ noted a (run_linked calls c')
  ]

  silent-Does :
      (r : Option (LinkedCache V)) (q : InMemoryCache V) → Leaves r q → Does (silent r) (q, none)
  silent-Does r q h = record {
    after = h.after;
    returns = rw h.returns refl;
    same = h.same;
    sound = h.sound;
  }

  step-Does :
      (call : Call V) (c : LinkedCache V)
      → IsSound c
      → c.expired_count < two64
      → Does (step_linked call c) (step (view c) call, answer (view c) call)
  unfolding step_linked step
  step-Does (gets now key) c h small = get-Does now key c h
  step-Does (sets now key v ttl) c h small = silent-Does _ _ (set-Leaves now key v ttl c h)
  step-Does (deletes key) c h small = silent-Does _ _ (delete-Leaves key c h)
  step-Does (purges now) c h small = silent-Does _ _ (purge-Leaves now c h small)

  abbrev IsSmall : InMemoryCache V → Type 0
  IsSmall c = c.expired_count < two64

  get-IsSmall :
      (now : ℕ) (key : String) (c : InMemoryCache V) → IsSmall c → IsSmall (get now key c).0
  unfolding get uint64
  get-IsSmall now key c h = ground arith

  evict_from-IsSmall :
      (l : List (CacheItem V)) (c : InMemoryCache V) → IsSmall c → IsSmall (evict_from l c)
  unfolding evict_from
  evict_from-IsSmall [] c h = h
  evict_from-IsSmall (i ∷ l) c h = h

  make_room-IsSmall : (c : InMemoryCache V) → IsSmall c → IsSmall (make_room c)
  unfolding make_room
  make_room-IsSmall c h = ground (arith, evict_from-IsSmall c.ll c h)

  set-IsSmall :
      (now : ℕ) (key : String) (v : V) (ttl : ℤ) (c : InMemoryCache V)
      → IsSmall c
      → IsSmall (set now key v ttl c)
  unfolding set
  set-IsSmall now key v ttl c h = elim (Option-cases (find key c.ll)) [
    | inl miss ↦ rw (miss, set) (make_room-IsSmall c h)
    | inr (i, hit) ↦ rw (hit, set) h
  ]

  step-IsSmall : (c : InMemoryCache V) (call : Call V) → IsSmall c → IsSmall (step c call)
  unfolding step delete purge_expired uint64
  step-IsSmall c (gets now key) h = get-IsSmall now key c h
  step-IsSmall c (sets now key v ttl) h = set-IsSmall now key v ttl c h
  step-IsSmall c (deletes key) h = h
  step-IsSmall c (purges now) h = omega arith

  -- What is known of a run.
  abbrev Runs : List (Call V) → LinkedCache V → InMemoryCache V → Type ℓ
  Runs calls c q =
      (c' : LinkedCache V) × (run_linked calls c ≡ some (c', answers calls q))
      × (view c' ≡ run calls q)

  run-Runs :
      (calls : List (Call V)) (c : LinkedCache V)
      → IsSound c
      → c.expired_count < two64
      → Runs calls c (view c)
  unfolding run_linked answers run
  run-Runs [] c h small = (c, refl, refl)
  run-Runs (call ∷ calls) c h small =
      let d = step-Does call c h small in
      let small' = subst IsSmall (sym d.same) (step-IsSmall (view c) call small) in
      let (c', returns, same) =
        subst (Runs calls d.after) d.same (run-Runs calls d.after d.sound small') in
      (c', rw (d.returns, run_linked) (rw returns refl), same)

  new-IsSound : (capacity ttl : ℤ) → IsSound (new_linked_cache {V = V} capacity ttl)
  unfolding new_linked_cache lookup handle_of
  new-IsSound capacity ttl = record { elements = tt; below = tt; keys = tt; linked = λ key. refl }

  -- Over any calls of Get, Set, Delete and PurgeExpired at any times on a new cache of any
  -- configuration, the map and the linked list of the code never fall apart: no method reads an
  -- element that has left the list, every Get answers what the cache of one list of entries answers,
  -- and the list and the counters at the end are those of that cache.
  pub run_linked-refines :
      (capacity ttl : ℤ) (calls : List (Call V))
      → (c' : LinkedCache V) × (run_linked calls (new_linked_cache capacity ttl)
          ≡ some (c', answers calls (new_in_memory_cache capacity ttl)))
        × (view c' ≡ run calls (new_in_memory_cache capacity ttl))
  unfolding new_linked_cache new_in_memory_cache
  run_linked-refines capacity ttl calls =
      run-Runs calls (new_linked_cache capacity ttl) (new-IsSound capacity ttl) (omega arith)
