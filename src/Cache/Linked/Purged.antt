-- ===== src/Cache/Linked/Purged.antt =====
-- cache.go: PurgeExpired, which takes elements out one by one, keeps what one walk of the list keeps.
use mathlib.Core.List.{append_assoc}
use fluxor_db.Base.{
  ℕ, suc, ◌+◌, ◌<◌, ◌≡◌, ◌∙◌, ap, sym, refl, String, true, false, some, List, [], ◌∷◌, ◌++◌, str_eq,
  eq_iff, eq_refl, if◌then◌else◌, arith, Bool-cases, inl, inr,
}
use fluxor_db.Base.Int.{uint64, two64, uint64_id}
use fluxor_db.Cache.{CacheItem, InMemoryCache, is_past, remove, purge, purge_expired}
use fluxor_db.Cache.Entries.{Distinct, Absent}
use fluxor_db.Cache.Linked.{Elements, LinkedCache, items_of, view, visit, sweep, purge_linked}
use fluxor_db.Cache.Linked.Elements.{handle_of, handle_of-some, handle_of-take_out}
use fluxor_db.Cache.Linked.Sound.{IsSound, erase-IsLinked}
use fluxor_db.Cache.Linked.Writes.{Leaves}

module _ {ℓ} {V : Type ℓ} (now : ℕ) where
  -- The past ones of some entries are removed from a list, the last one first.
  remove_past : List (CacheItem V) → List (CacheItem V) → List (CacheItem V)
  remove_past [] l = l
  remove_past (i ∷ s) l =
      let rest = remove_past s l in if is_past now i.expire_at then remove i.key rest else rest

  Absent-front :
      (front s : List (CacheItem V)) (i : CacheItem V)
      → Distinct (front ++ i ∷ s)
      → Absent i.key front
  Absent-front [] s i d = tt
  Absent-front (j ∷ front) s i d = (
    ground (arith, Absent-middle j.key front s i d.0, eq_iff j.key i.key, eq_iff i.key j.key),
    Absent-front front s i d.1,
  )
    where
      Absent-middle :
          (key : String) (front s : List (CacheItem V)) (i : CacheItem V)
          → Absent key (front ++ i ∷ s)
          → str_eq i.key key ≡ false
      Absent-middle key [] s i a = a.0
      Absent-middle key (j ∷ front) s i a = Absent-middle key front s i a.1

  remove-middle :
      (front l : List (CacheItem V)) (i : CacheItem V)
      → Absent i.key front
      → remove i.key ((front ++ i ∷ []) ++ l) ≡ front ++ l
  unfolding remove
  remove-middle [] l i a = rw (eq_refl i.key) refl
  remove-middle (j ∷ front) l i a = rw (a.0, remove-middle front l i a.1) refl

  remove_past-purge :
      (front s : List (CacheItem V))
      → Distinct (front ++ s)
      → remove_past s (front ++ s) ≡ front ++ (purge now s).0
  unfolding remove_past purge
  remove_past-purge front [] d = refl
  remove_past-purge front (i ∷ s) d =
      let split = append_assoc front (i ∷ []) s in
      let d' : Distinct ((front ++ i ∷ []) ++ s) = rw split d in
      let ih : remove_past s (front ++ i ∷ s) ≡ (front ++ i ∷ []) ++ (purge now s).0 =
        rw split at (remove_past-purge (front ++ i ∷ []) s d') in
      elim (Bool-cases (is_past now i.expire_at)) [
        | inl past ↦ rw (past, ih) (remove-middle front _ i (Absent-front front s i d))
        | inr fresh ↦ rw (fresh, ih) (append_assoc front (i ∷ []) _)
      ]

  -- Each of some elements is the one of its key.
  abbrev AreIn : Elements V → Elements V → Type 0
  AreIn [] l = Unit
  AreIn ((e, i) ∷ s) l = (handle_of i.key l ≡ some e) × AreIn s l

  -- The one list after the loop has seen some entries.
  swept : List (CacheItem V) → InMemoryCache V → InMemoryCache V
  unfolding remove_past
  swept s c = record c {
    ll = remove_past s c.ll;
    expired_count = uint64 (c.expired_count + (purge now s).1);
  }

  -- One expired entry goes, and is counted.
  drop_one : CacheItem V → InMemoryCache V → InMemoryCache V
  drop_one i c = record c { ll = remove i.key c.ll; expired_count = uint64 (c.expired_count + 1) }

  swept-past :
      (i : CacheItem V) (s : List (CacheItem V)) (c : InMemoryCache V)
      → is_past now i.expire_at ≡ true
      → drop_one i (swept s c) ≡ swept (i ∷ s) c
  unfolding swept drop_one purge
  swept-past i s c h =
      let n = c.expired_count + (purge now s).1 in
      let count : uint64 (uint64 n + 1) ≡ uint64 (c.expired_count + suc (purge now s).1) =
        unfold uint64 in omega arith in
      rw (h, count) refl

  swept-fresh :
      (i : CacheItem V) (s : List (CacheItem V)) (c : InMemoryCache V)
      → is_past now i.expire_at ≡ false
      → swept s c ≡ swept (i ∷ s) c
  unfolding swept purge
  swept-fresh i s c h = rw h refl

  -- What the loop does, on the elements of `s`.
  record Sweeps (s : Elements V) (c c' : LinkedCache V) : Type ℓ where
    sound : IsSound c'
    same : view c' ≡ swept (items_of s) (view c)
    others : (key : String) → Absent key (items_of s) → handle_of key c'.ll ≡ handle_of key c.ll

  visit-Sweeps :
      (e : ℕ) (i : CacheItem V) (s : Elements V) (c c' : LinkedCache V)
      → Sweeps s c c'
      → handle_of i.key c'.ll ≡ some e
      → Sweeps ((e, i) ∷ s) c (visit now (e, i) c')
  unfolding visit
  visit-Sweeps e i s c c' h found =
      let (j, (v, f, r)) = handle_of-some i.key e c'.ll h.sound.elements found in
      elim (Bool-cases (is_past now i.expire_at)) [
        | inl past ↦
            rw (past, visit)
              (record {
                sound = erase-IsLinked i.key e h.sound found;
                same =
                    unfold drop_one in
                    ap
                      (λ (l : List (CacheItem V)). record (view c') {
                        ll = l;
                        expired_count = uint64 (c'.expired_count + 1);
                      })
                      r
                    ∙ ap (drop_one i) h.same
                    ∙ swept-past i (items_of s) (view c) past;
                others = λ k a.
                    rw (handle_of-take_out i.key k e c'.ll h.sound.elements h.sound.keys found, a.0)
                      (h.others k a.1);
              })
        | inr fresh ↦
            rw (fresh, visit)
              (record {
                sound = h.sound;
                same = h.same ∙ swept-fresh i (items_of s) (view c) fresh;
                others = λ k a. h.others k a.1;
              })
      ]

  sweep-Sweeps :
      (s : Elements V) (c : LinkedCache V)
      → IsSound c
      → c.expired_count < two64
      → AreIn s c.ll
      → Distinct (items_of s)
      → Sweeps s c (sweep now s c)
  unfolding sweep swept purge
  sweep-Sweeps [] c h small at d = record {
    sound = h;
    same =
        let count : uint64 (c.expired_count + 0) ≡ c.expired_count =
          uint64_id (c.expired_count + 0) (omega arith) ∙ omega arith in
        ap (λ (n : ℕ). record (view c) { expired_count = n }) (sym count);
    others = λ k a. refl;
  }
  sweep-Sweeps ((e, i) ∷ s) c h small at d =
      let ih = sweep-Sweeps s c h small at.1 d.1 in
      visit-Sweeps e i s c (sweep now s c) ih (ih.others i.key d.0 ∙ at.0)

  AreIn-cons :
      (e : ℕ) (i : CacheItem V) (s l : Elements V)
      → Absent i.key (items_of s)
      → AreIn s l
      → AreIn s ((e, i) ∷ l)
  unfolding handle_of
  AreIn-cons e i [] l a h = tt
  AreIn-cons e i ((d, j) ∷ s) l a h =
      (ground (arith, eq_iff i.key j.key, eq_iff j.key i.key), AreIn-cons e i s l a.1 h.1)

  all-AreIn : (l : Elements V) → Distinct (items_of l) → AreIn l l
  unfolding handle_of
  all-AreIn [] d = tt
  all-AreIn ((e, i) ∷ l) d = (rw (eq_refl i.key) refl, AreIn-cons e i l l d.0 (all-AreIn l d.1))

  -- PurgeExpired of both structures leaves what PurgeExpired of the one list leaves.
  pub purge-Leaves :
      (c : LinkedCache V)
      → IsSound c
      → c.expired_count < two64
      → Leaves (some (purge_linked now c)) (purge_expired now (view c))
  unfolding purge_linked purge_expired swept
  purge-Leaves c h small =
      let done = sweep-Sweeps c.ll c h small (all-AreIn c.ll h.keys) h.keys in
      record {
        after = sweep now c.ll c;
        returns = refl;
        same =
            done.same
            ∙ ap
                (λ (l : List (CacheItem V)). record (view c) {
                  ll = l;
                  expired_count = uint64 (c.expired_count + (purge now (items_of c.ll)).1);
                })
                (remove_past-purge [] (items_of c.ll) h.keys);
        sound = done.sound;
      }
