-- ===== src/Base/Dict.antt =====
-- Go maps with text keys, as lists of pairs with different keys.
use fluxor_db.Base.{
  ◌+◌, ◌≤◌, ◌≡◌, ◌≢◌, refl, false, Bool-cases, inl, inr, String, Option, none, some, List, [], ◌∷◌,
  str_eq, eq_iff, if◌then◌else◌, length, arith,
}

-- Different texts.
pub str_eq-false : (s t : String) → s ≢ t → str_eq s t ≡ false
str_eq-false s t h = elim (Bool-cases (str_eq s t)) [
  | inl same ↦ absurd (h ((eq_iff s t).0 same))
  | inr other ↦ other
]

module _ {ℓ} {V : Type ℓ} where
  unfoldable pub lookup : String → List (String × V) → Option V
  lookup q [] = none
  lookup q ((k, v) ∷ m) = if str_eq k q then some v else lookup q m

  unfoldable pub assign : String → V → List (String × V) → List (String × V)
  assign q x [] = (q, x) ∷ []
  assign q x ((k, v) ∷ m) = if str_eq k q then (q, x) ∷ m else (k, v) ∷ assign q x m

  pub length-assign :
      (q : String) (v : V) (m : List (String × V)) → length (assign q v m) ≤ length m + 1
  unfolding assign
  length-assign q v [] = omega arith
  length-assign q v ((k, w) ∷ m) = ground (arith, length-assign q v m)

  pub lookup-assign :
      (q p : String) (v : V) (m : List (String × V))
      → lookup p (assign q v m) ≡ (if str_eq q p then some v else lookup p m)
  unfolding lookup assign
  lookup-assign q p v [] = refl
  lookup-assign q p v ((k, w) ∷ m) =
      ground (arith, lookup-assign q p v m, eq_iff k q, eq_iff k p, eq_iff q p)
