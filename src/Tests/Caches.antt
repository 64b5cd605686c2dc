-- ===== src/Tests/Caches.antt =====
-- Instances of the theorems about cache.go.
use fluxor_db.Base.{
  ℕ, ◌≡◌, ◌≢◌, refl, String, true, false, List, [], ◌∷◌, none, some, arith, eq_iff, if◌then◌else◌,
}
use fluxor_db.Base.Int.{pos}
use fluxor_db.Cache
use fluxor_db.Cache.{InMemoryCache, CacheItem, is_past, effective_expire}
use fluxor_db.Cache.Invariant
use fluxor_db.Cache.Invariant.{Call, IsValid, gets, sets, deletes, purges}
use fluxor_db.Cache.Reads
use fluxor_db.Cache.Linked
use fluxor_db.Cache.Linked.{LinkedCache}
use fluxor_db.Cache.Linked.Runs

abbrev item_a : CacheItem ℕ
item_a = record { key = "a"; value = 1; expire_at = 0 }

abbrev item_b : CacheItem ℕ
item_b = record { key = "b"; value = 2; expire_at = 50 }

abbrev pair : InMemoryCache ℕ
pair = record {
  ll = item_b ∷ item_a ∷ [];
  capacity = 2;
  default_ttl = pos 0;
  hits = 0;
  misses = 0;
  evictions = 0;
  expired_count = 0;
}

pair-IsValid : IsValid pair
pair-IsValid = record {
  positive = omega arith;
  bounded = omega arith;
  distinct = ((refl, tt), (tt, tt));
}

abbrev calls : List (Call ℕ)
calls = gets 10 "a" ∷ sets 20 "c" 3 (pos 5) ∷ deletes "a" ∷ purges 90 ∷ []

run_new-IsValid_example : IsValid (Invariant.run calls (Cache.new_in_memory_cache (pos 2) (pos 60)))
run_new-IsValid_example = Invariant.run_new-IsValid (pos 2) (pos 60) calls

get-set_self_example :
    (Cache.get 30 "c" (Cache.set 20 "c" 3 (pos 5) pair)).1
    ≡ (if is_past 30 (effective_expire 20 (pos 0) (pos 5)) then none else some 3)
get-set_self_example = Reads.get-set_self 20 30 "c" 3 (pos 5) pair

different_c : ◌≢◌ {A = String} "b" "c"
different_c e = let t : false ≡ true = (eq_iff "b" "c").1 e in cc

different_a : ◌≢◌ {A = String} "b" "a"
different_a e = let t : false ≡ true = (eq_iff "b" "a").1 e in cc

get-set_ne_example :
    (Cache.get 30 "b" (Cache.set 20 "c" 3 (pos 5) pair)).1
    ≡ Reads.answer 30 (Cache.find "b" (Reads.survivors "c" pair))
get-set_ne_example = Reads.get-set_ne 20 30 "c" "b" 3 (pos 5) pair different_c

-- A full cache loses the entry at the back: "a" here, and "b" after a read of "a".
evicts_back : (Cache.get 30 "a" (Cache.set 20 "c" 3 (pos 5) pair)).1 ≡ none
unfolding Cache.get Cache.set Cache.find Cache.drop_back is_past
evicts_back = refl

read_keeps : (Cache.get 30 "a" (Cache.set 20 "c" 3 (pos 5) (Cache.get 10 "a" pair).0)).1 ≡ some 1
unfolding Cache.get Cache.set Cache.find Cache.remove Cache.drop_back is_past
read_keeps = refl

-- The second entry is pushed out by the third, and the first one found and moved in between.
abbrev crowded : List (Call ℕ)
crowded =
    sets 10 "a" 1 (pos 0)
    ∷ sets 11 "b" 2 (pos 5)
    ∷ gets 12 "a"
    ∷ sets 13 "c" 3 (pos 0)
    ∷ gets 14 "b"
    ∷ gets 15 "a"
    ∷ purges 16
    ∷ []

run_linked-refines_example :
    (c' : LinkedCache ℕ) × (Runs.run_linked crowded (Linked.new_linked_cache (pos 2) (pos 60))
      ≡ some (c', Runs.answers crowded (Cache.new_in_memory_cache (pos 2) (pos 60))))
    × (Linked.view c' ≡ Invariant.run crowded (Cache.new_in_memory_cache (pos 2) (pos 60)))
run_linked-refines_example = Runs.run_linked-refines (pos 2) (pos 60) crowded

crowded_answers :
    Runs.answers crowded (Cache.new_in_memory_cache (pos 2) (pos 60))
    ≡ none ∷ none ∷ some 1 ∷ none ∷ none ∷ some 1 ∷ none ∷ []
unfolding Runs.answers Cache.get Cache.find Invariant.step Cache.set Cache.new_in_memory_cache
    is_past effective_expire Cache.remove Cache.drop_back
crowded_answers = refl
