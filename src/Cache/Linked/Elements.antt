-- ===== src/Cache/Linked/Elements.antt =====
-- cache.go: the elements of the linked list, each with a number and a key of its own.
use mathlib.Core.Path.{subst}
use mathlib.Core.Option.{some-injective}
use fluxor_db.Base.{
  ==_iff, ℕ, suc, ◌<◌, ◌≡◌, ◌∙◌, sym, ap, refl, String, true, false, Option, none, some, [], ◌∷◌,
  str_eq, eq_iff, eq_refl, ◌==◌, if◌then◌else◌, arith, none_not_some, Bool-cases, inl, inr,
}
use fluxor_db.Cache.{CacheItem, find, remove, drop_back}
use fluxor_db.Cache.Entries.{Distinct, Absent}
use fluxor_db.Cache.Linked.{Elements, value, take_out, back, items_of}

module _ {ℓ} {V : Type ℓ} where
  -- The element with a key.
  unfoldable pub handle_of : String → Elements V → Option ℕ
  handle_of key [] = none
  handle_of key ((e, i) ∷ l) = if str_eq i.key key then some e else handle_of key l

  -- An element that is not in the list.
  abbrev pub IsNew : ℕ → Elements V → Type 0
  IsNew e [] = Unit
  IsNew e ((d, i) ∷ l) = ((d == e) ≡ false) × IsNew e l

  abbrev pub IsDistinct : Elements V → Type 0
  IsDistinct [] = Unit
  IsDistinct ((e, i) ∷ l) = IsNew e l × IsDistinct l

  abbrev pub IsBelow : ℕ → Elements V → Type 0
  IsBelow n [] = Unit
  IsBelow n ((e, i) ∷ l) = (e < n) × IsBelow n l

  -- An element of the list is not a new one.
  value-IsNew :
      (d e : ℕ) (i : CacheItem V) (l : Elements V)
      → IsNew d l
      → value e l ≡ some i
      → (d == e) ≡ false
  unfolding value
  value-IsNew d e i [] h v = absurd (none_not_some i v)
  value-IsNew d e i ((b, j) ∷ l) h v = ground (arith, value-IsNew d e i l h.1)

  pub handle_of-none :
      (key : String) (l : Elements V) → handle_of key l ≡ none → find key (items_of l) ≡ none
  unfolding handle_of find
  handle_of-none key [] h = refl
  handle_of-none key ((e, i) ∷ l) h = ground (arith, handle_of-none key l)

  -- What the element of a key is.
  abbrev Found : String → ℕ → CacheItem V → Elements V → Type ℓ
  Found key e i l =
      (value e l ≡ some i)
      × (find key (items_of l) ≡ some i)
      × (items_of (take_out e l) ≡ remove key (items_of l))

  pub handle_of-some :
      (key : String) (e : ℕ) (l : Elements V)
      → IsDistinct l
      → handle_of key l ≡ some e
      → (i : CacheItem V) × (Found key e i l)
  unfolding handle_of find value take_out remove
  handle_of-some key e [] d h = absurd (none_not_some e h)
  handle_of-some key e ((b, j) ∷ l) d h = elim (Bool-cases (str_eq j.key key)) [
    | inl same ↦
        let at : (b == e) ≡ true = ground arith in
        (j, (rw at refl, rw same refl, rw (at, same) refl))
    | inr other ↦
        let (i, (v, f, r)) = handle_of-some key e l d.1 (rw other at h) in
        let ne = value-IsNew b e i l d.0 v in
        (i, (rw ne v, rw other f, rw (ne, other) (ap (λ t. j ∷ t) r)))
  ]

  take_out-IsNew : (d e : ℕ) (l : Elements V) → IsNew d l → IsNew d (take_out e l)
  unfolding take_out
  take_out-IsNew d e [] h = tt
  take_out-IsNew d e ((b, j) ∷ l) h = ground (arith, take_out-IsNew d e l h.1)

  pub take_out-IsDistinct : (e : ℕ) (l : Elements V) → IsDistinct l → IsDistinct (take_out e l)
  unfolding take_out
  take_out-IsDistinct e [] h = tt
  take_out-IsDistinct e ((b, j) ∷ l) h =
      ground (arith, take_out-IsDistinct e l h.1, take_out-IsNew b e l h.0)

  -- The element that is taken out is in the list no more.
  pub take_out_self : (e : ℕ) (l : Elements V) → IsDistinct l → IsNew e (take_out e l)
  unfolding take_out
  take_out_self e [] h = tt
  take_out_self e ((b, j) ∷ l) h = ground (arith, take_out_self e l h.1)

  pub take_out-IsBelow : (n e : ℕ) (l : Elements V) → IsBelow n l → IsBelow n (take_out e l)
  unfolding take_out
  take_out-IsBelow n e [] h = tt
  take_out-IsBelow n e ((b, j) ∷ l) h = ground (arith, take_out-IsBelow n e l h.1)

  pub IsBelow-suc : (n : ℕ) (l : Elements V) → IsBelow n l → IsBelow (suc n) l
  IsBelow-suc n [] h = tt
  IsBelow-suc n ((b, j) ∷ l) h = (omega arith, IsBelow-suc n l h.1)

  pub IsBelow-IsNew : (n : ℕ) (l : Elements V) → IsBelow n l → IsNew n l
  IsBelow-IsNew n [] h = tt
  IsBelow-IsNew n ((b, j) ∷ l) h = (ground arith, IsBelow-IsNew n l h.1)

  handle_of-Absent :
      (key : String) (l : Elements V) → Absent key (items_of l) → handle_of key l ≡ none
  unfolding handle_of
  handle_of-Absent key [] h = refl
  handle_of-Absent key ((e, i) ∷ l) h = rw h.0 (handle_of-Absent key l h.1)

  -- A number below which all are, or that is new, is no element's.
  handle_of-IsNew :
      (d e : ℕ) (key : String) (l : Elements V)
      → IsNew d l
      → handle_of key l ≡ some e
      → (d == e) ≡ false
  unfolding handle_of
  handle_of-IsNew d e key [] h v = absurd (none_not_some e v)
  handle_of-IsNew d e key ((b, j) ∷ l) h v = ground (arith, handle_of-IsNew d e key l h.1)

  pub handle_of-IsBelow :
      (n e : ℕ) (key : String) (l : Elements V) → IsBelow n l → handle_of key l ≡ some e → e < n
  unfolding handle_of
  handle_of-IsBelow n e key [] h v = absurd (none_not_some e v)
  handle_of-IsBelow n e key ((b, j) ∷ l) h v = ground (arith, handle_of-IsBelow n e key l h.1)

  -- Without the element of one key, that key has none, and the others have theirs.
  pub handle_of-take_out :
      (key other : String) (e : ℕ) (l : Elements V)
      → IsDistinct l
      → Distinct (items_of l)
      → handle_of key l ≡ some e
      → handle_of other (take_out e l) ≡ (if str_eq key other then none else handle_of other l)
  unfolding handle_of take_out
  handle_of-take_out key other e [] d k h = absurd (none_not_some e h)
  handle_of-take_out key other e ((b, j) ∷ l) d k h = ground (
    arith,
    handle_of-take_out key other e l d.1 k.1,
    handle_of-IsNew b e key l d.0,
    handle_of-Absent j.key l k.0,
    eq_iff j.key key,
    eq_iff j.key other,
    eq_iff key other,
  )

  -- A key that no entry has is not one that an element has.
  key-Absent :
      (key other : String) (e : ℕ) (l : Elements V)
      → Absent other (items_of l)
      → handle_of key l ≡ some e
      → str_eq other key ≡ false
  key-Absent key other e l h v = elim (Bool-cases (str_eq other key)) [
    | inl same ↦
        let missing : handle_of key l ≡ none =
          rw (← (eq_iff other key).0 same) (handle_of-Absent other l h) in
        absurd (none_not_some e (sym missing ∙ v))
    | inr differ ↦ differ
  ]

  -- What an element of the list is, by its key.
  abbrev Back : ℕ × CacheItem V → Elements V → Type ℓ
  Back p l = (handle_of p.1.key l ≡ some p.0) × (items_of (take_out p.0 l) ≡ drop_back (items_of l))

  -- The back is the element of its key, and the list without it is the list without its back.
  pub back-Found :
      (p : ℕ × CacheItem V) (l : Elements V)
      → IsDistinct l
      → Distinct (items_of l)
      → back l ≡ some p
      → Back p l
  unfolding back handle_of take_out drop_back
  back-Found p [] d k h = absurd (none_not_some p h)
  back-Found p (q ∷ []) d k h =
      subst (λ x. Back x (q ∷ [])) (some-injective q p h)
        (rw (eq_refl q.1.key) refl, rw ((==_iff q.0 q.0).1 refl) refl)
  back-Found p ((b, j) ∷ q ∷ l) d k h =
      let (found, taken) = back-Found p (q ∷ l) d.1 k.1 h in
      let other = key-Absent p.1.key j.key p.0 (q ∷ l) k.0 found in
      let ne = handle_of-IsNew b p.0 p.1.key (q ∷ l) d.0 found in
      (rw other found, rw ne (ap (λ t. j ∷ t) taken))
