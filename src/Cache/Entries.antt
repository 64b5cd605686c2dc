-- ===== src/Cache/Entries.antt =====
-- cache.go: the list of entries, with no key twice.
use fluxor_db.Base.{
  ℕ, ◌+◌, ◌-◌, ◌≤◌, ◌≡◌, ◌≢◌, refl, String, false, none, some, List, [], ◌∷◌, str_eq, eq_iff,
  length, arith,
}
use fluxor_db.Cache.{CacheItem, find, remove, drop_back, purge}

module _ {ℓ} {V : Type ℓ} where
  -- No entry has the key.
  abbrev pub Absent : String → List (CacheItem V) → Type 0
  Absent key [] = Unit
  Absent key (i ∷ l) = (str_eq i.key key ≡ false) × Absent key l

  abbrev pub Distinct : List (CacheItem V) → Type 0
  Distinct [] = Unit
  Distinct (i ∷ l) = Absent i.key l × Distinct l

  pub find-Absent : (key : String) (l : List (CacheItem V)) → find key l ≡ none → Absent key l
  unfolding find
  find-Absent key [] h = tt
  find-Absent key (i ∷ l) h = ground (arith, find-Absent key l)

  pub Absent-find : (key : String) (l : List (CacheItem V)) → Absent key l → find key l ≡ none
  unfolding find
  Absent-find key [] h = refl
  Absent-find key (i ∷ l) h = ground (arith, Absent-find key l)

  pub remove-Absent :
      (key other : String) (l : List (CacheItem V)) → Absent other l → Absent other (remove key l)
  unfolding remove
  remove-Absent key other [] h = tt
  remove-Absent key other (i ∷ l) h = ground (arith, remove-Absent key other l h.1)

  pub remove_self : (key : String) (l : List (CacheItem V)) → Distinct l → Absent key (remove key l)
  unfolding remove
  remove_self key [] d = tt
  remove_self key (i ∷ l) d = ground (arith, remove_self key l d.1, (eq_iff i.key key).0)

  pub remove-Distinct :
      (key : String) (l : List (CacheItem V)) → Distinct l → Distinct (remove key l)
  unfolding remove
  remove-Distinct key [] d = tt
  remove-Distinct key (i ∷ l) d =
      ground (arith, remove-Distinct key l d.1, remove-Absent key i.key l d.0)

  pub drop_back-Absent :
      (key : String) (l : List (CacheItem V)) → Absent key l → Absent key (drop_back l)
  unfolding drop_back
  drop_back-Absent key [] h = tt
  drop_back-Absent key (i ∷ []) h = tt
  drop_back-Absent key (i ∷ j ∷ l) h = (h.0, drop_back-Absent key (j ∷ l) h.1)

  pub drop_back-Distinct : (l : List (CacheItem V)) → Distinct l → Distinct (drop_back l)
  unfolding drop_back
  drop_back-Distinct [] d = tt
  drop_back-Distinct (i ∷ []) d = tt
  drop_back-Distinct (i ∷ j ∷ l) d =
      (drop_back-Absent i.key (j ∷ l) d.0, drop_back-Distinct (j ∷ l) d.1)

  pub length-drop_back : (l : List (CacheItem V)) → length (drop_back l) ≡ length l - 1
  unfolding drop_back
  length-drop_back [] = omega arith
  length-drop_back (i ∷ []) = omega arith
  length-drop_back (i ∷ j ∷ l) = omega (arith, length-drop_back (j ∷ l))

  pub length-remove-le : (key : String) (l : List (CacheItem V)) → length (remove key l) ≤ length l
  unfolding remove
  length-remove-le key [] = omega arith
  length-remove-le key (i ∷ l) = ground (arith, length-remove-le key l)

  pub length-remove :
      (key : String) (l : List (CacheItem V)) (i : CacheItem V)
      → find key l ≡ some i
      → length (remove key l) + 1 ≡ length l
  unfolding find remove
  length-remove key [] i h = cc
  length-remove key (j ∷ l) i h = ground (arith, length-remove key l i)

  pub find-key :
      (key : String) (l : List (CacheItem V)) (i : CacheItem V) → find key l ≡ some i → i.key ≡ key
  unfolding find
  find-key key [] i h = cc
  find-key key (j ∷ l) i h = ground (arith, find-key key l i, (eq_iff j.key key).0)

  pub find-remove_ne :
      (key other : String) (l : List (CacheItem V))
      → other ≢ key
      → find other (remove key l) ≡ find other l
  unfolding find remove
  find-remove_ne key other [] h = refl
  find-remove_ne key other (i ∷ l) h =
      ground (arith, find-remove_ne key other l h, (eq_iff i.key key).0, (eq_iff i.key other).0)

  pub purge-Absent :
      (key : String) (now : ℕ) (l : List (CacheItem V)) → Absent key l → Absent key (purge now l).0
  unfolding purge
  purge-Absent key now [] h = tt
  purge-Absent key now (i ∷ l) h = ground (arith, purge-Absent key now l h.1)

  pub purge-Distinct : (now : ℕ) (l : List (CacheItem V)) → Distinct l → Distinct (purge now l).0
  unfolding purge
  purge-Distinct now [] d = tt
  purge-Distinct now (i ∷ l) d =
      ground (arith, purge-Distinct now l d.1, purge-Absent i.key now l d.0)

  pub length-purge :
      (now : ℕ) (l : List (CacheItem V)) → length (purge now l).0 + (purge now l).1 ≡ length l
  unfolding purge
  length-purge now [] = omega arith
  length-purge now (i ∷ l) = ground (arith, length-purge now l)
