-- ===== src/Cache/Linked/Writes.antt =====
-- cache.go: Set and Delete change both structures as they change the one list of entries.
use fluxor_db.Base.{
  ℕ, suc, ◌+◌, ◌≡◌, sym, ap, refl, String, Option, none, some, List, [], ◌∷◌, leb, length, arith,
  none_not_some, if_both, Bool-cases, inl, inr,
}
use fluxor_db.Base.Dict.{lookup}
use fluxor_db.Base.Int.{ℤ, uint64}
use fluxor_db.Cache.{
  CacheItem, InMemoryCache, find, remove, drop_back, set, delete, effective_expire, make_room,
  evict_from,
}
use fluxor_db.Cache.Entries.{find-key}
use fluxor_db.Cache.Linked.{
  Elements, LinkedCache, erase, take_out, back, move_to_front, items_of, view, evicted,
  evict_linked, pushed, updated, set_from, set_linked, delete_from, delete_linked,
}
use fluxor_db.Cache.Linked.Elements.{
  handle_of, handle_of-none, handle_of-some, handle_of-take_out, back-Found,
}
use fluxor_db.Cache.Linked.Sound.{IsSound, erase-IsLinked, front-IsLinked, push-IsLinked}

module _ {ℓ} {V : Type ℓ} where
  back-none : (l : Elements V) → back l ≡ none → items_of l ≡ []
  unfolding back
  back-none [] h = refl
  back-none (p ∷ []) h = absurd (none_not_some p (sym h))
  back-none (p ∷ q ∷ l) h = absurd (cons_not_nil (back-none (q ∷ l) h))
    where
      cons_not_nil : {x : CacheItem V} {xs : List (CacheItem V)} → (x ∷ xs) ≡ [] → ⊥
      cons_not_nil e = cc

  evict_from-back :
      (l : Elements V) (p : ℕ × CacheItem V) (c : InMemoryCache V)
      → back l ≡ some p
      → evict_from (items_of l) c
        ≡ record c { ll = drop_back (items_of l); evictions = uint64 (c.evictions + 1) }
  unfolding evict_from back
  evict_from-back [] p c h = absurd (none_not_some p h)
  evict_from-back (q ∷ l) p c h = refl

  -- A full list loses its back, and the map the key of it.
  evicted-Evicts :
      (c : LinkedCache V) (o : Option (ℕ × CacheItem V))
      → IsSound c
      → back c.ll ≡ o
      → (view (evicted c o) ≡ evict_from (items_of c.ll) (view c)) × IsSound (evicted c o)
  unfolding evicted evict_from
  evicted-Evicts c none h at = (rw (back-none c.ll at, evict_from) refl, h)
  evicted-Evicts c (some (e, i)) h at =
      let (found, taken) = back-Found (e, i) c.ll h.elements h.keys at in
      (rw (taken, evict_from-back c.ll (e, i) (view c) at) refl, erase-IsLinked i.key e h found)

  length-items_of : (l : Elements V) → length (items_of l) ≡ length l
  length-items_of [] = refl
  length-items_of ((e, i) ∷ l) = ap suc (length-items_of l)

  evict-Evicts :
      (c : LinkedCache V)
      → IsSound c
      → (view (evict_linked c) ≡ make_room (view c)) × IsSound (evict_linked c)
  unfolding evict_linked make_room
  evict-Evicts c h = rw (length-items_of c.ll) (elim (Bool-cases (leb c.capacity (length c.ll))) [
    | inl full ↦ rw full (evicted-Evicts c (back c.ll) h refl)
    | inr room ↦ rw room (refl, h)
  ])

  evicted-absent :
      (key : String) (c : LinkedCache V) (o : Option (ℕ × CacheItem V))
      → IsSound c
      → back c.ll ≡ o
      → handle_of key c.ll ≡ none
      → handle_of key (evicted c o).ll ≡ none
  unfolding evicted
  evicted-absent key c none h at absent = absent
  evicted-absent key c (some (e, i)) h at absent =
      let (found, taken) = back-Found (e, i) c.ll h.elements h.keys at in
      ground (arith, handle_of-take_out i.key key e c.ll h.elements h.keys found)

  evict-absent :
      (key : String) (c : LinkedCache V)
      → IsSound c
      → handle_of key c.ll ≡ none
      → handle_of key (evict_linked c).ll ≡ none
  unfolding evict_linked
  evict-absent key c h absent =
      if_both (λ (x : LinkedCache V). handle_of key x.ll ≡ none) (leb c.capacity (length c.ll))
        (evicted-absent key c (back c.ll) h refl absent) absent

  -- A call without an answer that returns `r` leaves what a call of the one list leaves.
  pub record Leaves (r : Option (LinkedCache V)) (q : InMemoryCache V) : Type ℓ where
    pub after : LinkedCache V
    pub returns : r ≡ some after
    pub same : view after ≡ q
    pub sound : IsSound after

  updated-Leaves :
      (now : ℕ) (key : String) (v : V) (ttl : ℤ) (c : LinkedCache V) (e : ℕ) (i : CacheItem V)
      → IsSound c
      → handle_of key c.ll ≡ some e
      → find key (items_of c.ll) ≡ some i
      → items_of (take_out e c.ll) ≡ remove key (items_of c.ll)
      → Leaves (updated now v ttl c e (some i)) (set now key v ttl (view c))
  unfolding updated set
  updated-Leaves now key v ttl c e i h at found taken =
      let i' : CacheItem V = record i {
        value = v;
        expire_at = effective_expire now c.default_ttl ttl;
      } in
      record {
        after = record c { ll = move_to_front e i' c.ll };
        returns = refl;
        same = rw (found, taken, set) refl;
        sound = front-IsLinked key e i' h at (find-key key (items_of c.ll) i found);
      }

  set_from-Leaves :
      (now : ℕ) (key : String) (v : V) (ttl : ℤ) (c : LinkedCache V) (o : Option ℕ)
      → IsSound c
      → handle_of key c.ll ≡ o
      → Leaves (set_from now key v ttl c o) (set now key v ttl (view c))
  unfolding set_from set pushed
  set_from-Leaves now key v ttl c none h at =
      let i : CacheItem V = record {
        key = key;
        value = v;
        expire_at = effective_expire now c.default_ttl ttl;
      } in
      let (evicts, sound) = evict-Evicts c h in
      record {
        after = pushed i (evict_linked c);
        returns = refl;
        same =
            rw (handle_of-none key c.ll at, set)
              (ap (λ (x : InMemoryCache V). record x { ll = i ∷ x.ll }) evicts);
        sound = push-IsLinked i sound (evict-absent key c h at);
      }
  set_from-Leaves now key v ttl c (some e) h at =
      let (i, (x, f, r)) = handle_of-some key e c.ll h.elements at in
      rw x (updated-Leaves now key v ttl c e i h at f r)

  pub set-Leaves :
      (now : ℕ) (key : String) (v : V) (ttl : ℤ) (c : LinkedCache V)
      → IsSound c
      → Leaves (set_linked now key v ttl c) (set now key v ttl (view c))
  unfolding set_linked
  set-Leaves now key v ttl c h =
      set_from-Leaves now key v ttl c (lookup key c.items) h (sym (h.linked key))

  remove-Absent_self :
      (key : String) (l : List (CacheItem V)) → find key l ≡ none → remove key l ≡ l
  unfolding find remove
  remove-Absent_self key [] h = refl
  remove-Absent_self key (i ∷ l) h = ground (arith, remove-Absent_self key l)

  delete_from-Leaves :
      (key : String) (c : LinkedCache V) (o : Option ℕ)
      → IsSound c
      → handle_of key c.ll ≡ o
      → Leaves (some (delete_from key c o)) (delete key (view c))
  unfolding delete_from delete
  delete_from-Leaves key c none h at = record {
    after = c;
    returns = refl;
    same = rw (remove-Absent_self key (items_of c.ll) (handle_of-none key c.ll at)) refl;
    sound = h;
  }
  delete_from-Leaves key c (some e) h at =
      let (i, (x, f, r)) = handle_of-some key e c.ll h.elements at in
      record {
        after = record c { ll = take_out e c.ll; items = erase key c.items };
        returns = refl;
        same = rw r refl;
        sound = erase-IsLinked key e h at;
      }

  pub delete-Leaves :
      (key : String) (c : LinkedCache V)
      → IsSound c
      → Leaves (some (delete_linked key c)) (delete key (view c))
  unfolding delete_linked
  delete-Leaves key c h = delete_from-Leaves key c (lookup key c.items) h (sym (h.linked key))
