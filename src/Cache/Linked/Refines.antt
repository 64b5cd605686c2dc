-- ===== src/Cache/Linked/Refines.antt =====
-- cache.go: the map and the list stay together, and do what the one list of entries does.
use fluxor_db.Base.{ℕ, ◌+◌, ◌≡◌, sym, refl, String, Option, none, some, Bool-cases, inl, inr}
use fluxor_db.Base.Dict.{lookup}
use fluxor_db.Base.Int.{uint64}
use fluxor_db.Cache.{CacheItem, InMemoryCache, is_past, find, remove, get}
use fluxor_db.Cache.Entries.{find-key}
use fluxor_db.Cache.Linked.{
  LinkedCache, erase, take_out, move_to_front, items_of, view, got, get_from, get_linked,
}
use fluxor_db.Cache.Linked.Elements.{handle_of, handle_of-none, handle_of-some}
use fluxor_db.Cache.Linked.Sound.{IsSound, erase-IsLinked, front-IsLinked}

module _ {ℓ} {V : Type ℓ} where
  -- A call that returns `r` does what a call of the one list does that returns `q`.
  pub record Does {ℓ'} {A : Type ℓ'} (r : Option (LinkedCache V × A)) (q : InMemoryCache V × A)
      : Type (ℓ ⊔ ℓ') where
    pub after : LinkedCache V
    pub returns : r ≡ some (after, q.1)
    pub same : view after ≡ q.0
    pub sound : IsSound after

  got-Does :
      (now : ℕ) (key : String) (c : LinkedCache V) (e : ℕ) (i : CacheItem V)
      → IsSound c
      → handle_of key c.ll ≡ some e
      → find key (items_of c.ll) ≡ some i
      → items_of (take_out e c.ll) ≡ remove key (items_of c.ll)
      → Does (got now key c e (some i)) (get now key (view c))
  unfolding got get
  got-Does now key c e i h at found taken = elim (Bool-cases (is_past now i.expire_at)) [
    | inl past ↦ record {
      after = record c {
        ll = take_out e c.ll;
        items = erase key c.items;
        expired_count = uint64 (c.expired_count + 1);
        misses = uint64 (c.misses + 1);
      };
      returns = rw (found, past, get) refl;
      same = rw (found, past, taken, get) refl;
      sound = erase-IsLinked key e h at;
    }
    | inr fresh ↦ record {
      after = record c { ll = move_to_front e i c.ll; hits = uint64 (c.hits + 1) };
      returns = rw (found, fresh, get) refl;
      same = rw (found, fresh, taken, get) refl;
      sound = front-IsLinked key e i h at (find-key key (items_of c.ll) i found);
    }
  ]

  get_from-Does :
      (now : ℕ) (key : String) (c : LinkedCache V) (o : Option ℕ)
      → IsSound c
      → handle_of key c.ll ≡ o
      → Does (get_from now key c o) (get now key (view c))
  unfolding get_from get
  get_from-Does now key c none h at = record {
    after = record c { misses = uint64 (c.misses + 1) };
    returns = rw (handle_of-none key c.ll at, get) refl;
    same = rw (handle_of-none key c.ll at, get) refl;
    sound = h;
  }
  get_from-Does now key c (some e) h at =
      let (i, (v, f, r)) = handle_of-some key e c.ll h.elements at in
      rw v (got-Does now key c e i h at f r)

  pub get-Does :
      (now : ℕ) (key : String) (c : LinkedCache V)
      → IsSound c
      → Does (get_linked now key c) (get now key (view c))
  unfolding get_linked
  get-Does now key c h = get_from-Does now key c (lookup key c.items) h (sym (h.linked key))
