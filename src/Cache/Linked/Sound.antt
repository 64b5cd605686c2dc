-- ===== src/Cache/Linked/Sound.antt =====
-- cache.go: the map of the keys fits the list of the elements.
use fluxor_db.Base.{
  ℕ, suc, ◌≡◌, refl, String, none, some, List, [], ◌∷◌, str_eq, eq_iff, if◌then◌else◌, arith,
}
use fluxor_db.Base.Dict.{lookup, assign, lookup-assign}
use fluxor_db.Cache.{CacheItem}
use fluxor_db.Cache.Entries.{Distinct, find-Absent, remove_self, remove-Distinct}
use fluxor_db.Cache.Linked.{Elements, LinkedCache, erase, take_out, move_to_front, items_of}
use fluxor_db.Cache.Linked.Elements.{
  handle_of, IsDistinct, IsBelow, handle_of-none, handle_of-some, take_out-IsDistinct,
  take_out_self, take_out-IsBelow, IsBelow-suc, IsBelow-IsNew, handle_of-take_out,
  handle_of-IsBelow,
}

lookup-erase :
    (q p : String) (m : List (String × ℕ))
    → lookup p (erase q m) ≡ (if str_eq q p then none else lookup p m)
unfolding lookup erase
lookup-erase q p [] = ground arith
lookup-erase q p ((k, e) ∷ m) =
    ground (arith, lookup-erase q p m, eq_iff k q, eq_iff k p, eq_iff q p)

-- The map names, for each key, the element of the list that has the key.
pub record IsLinked {ℓ} {V : Type ℓ} (items : List (String × ℕ)) (ll : Elements V) (next : ℕ)
    : Type 0 where
  pub elements : IsDistinct ll
  pub below : IsBelow next ll
  pub keys : Distinct (items_of ll)
  pub linked : (key : String) → lookup key items ≡ handle_of key ll

module _ {ℓ} {V : Type ℓ} {items : List (String × ℕ)} {ll : Elements V} {next : ℕ} where
  -- The element of a key leaves the list, and the key the map.
  pub erase-IsLinked :
      (key : String) (e : ℕ)
      → IsLinked items ll next
      → handle_of key ll ≡ some e
      → IsLinked (erase key items) (take_out e ll) next
  erase-IsLinked key e h at =
      let (i, (v, f, r)) = handle_of-some key e ll h.elements at in
      record {
        elements = take_out-IsDistinct e ll h.elements;
        below = take_out-IsBelow next e ll h.below;
        keys = rw r (remove-Distinct key (items_of ll) h.keys);
        linked = λ k.
            rw
              (
                lookup-erase key k items,
                handle_of-take_out key k e ll h.elements h.keys at,
                h.linked k,
              )
              refl;
      }

  pub front-IsLinked :
      (key : String) (e : ℕ) (i : CacheItem V)
      → IsLinked items ll next
      → handle_of key ll ≡ some e
      → i.key ≡ key
      → IsLinked items (move_to_front e i ll) next
  unfolding handle_of
  front-IsLinked key e i h at same =
      let (j, (v, f, r)) = handle_of-some key e ll h.elements at in
      record {
        elements = (take_out_self e ll h.elements, take_out-IsDistinct e ll h.elements);
        below = (handle_of-IsBelow next e key ll h.below at, take_out-IsBelow next e ll h.below);
        keys =
            rw (r, same)
              (remove_self key (items_of ll) h.keys, remove-Distinct key (items_of ll) h.keys);
        linked = λ k.
            ground
              (arith, handle_of-take_out key k e ll h.elements h.keys at, h.linked k, eq_iff key k);
      }

  pub push-IsLinked :
      (i : CacheItem V)
      → IsLinked items ll next
      → handle_of i.key ll ≡ none
      → IsLinked (assign i.key next items) ((next, i) ∷ ll) (suc next)
  unfolding handle_of
  push-IsLinked i h absent = record {
    elements = (IsBelow-IsNew next ll h.below, h.elements);
    below = (omega arith, IsBelow-suc next ll h.below);
    keys = (find-Absent i.key (items_of ll) (handle_of-none i.key ll absent), h.keys);
    linked = λ k. rw (lookup-assign i.key k next items, h.linked k) refl;
  }

abbrev pub IsSound {ℓ} : {V : Type ℓ} → LinkedCache V → Type 0
IsSound c = IsLinked c.items c.ll c.next
