-- ===== src/Base/Bytes/Laws.antt =====
-- Splitting, trimming and searching, over concatenations.
use fluxor_db.Base.{
  ℕ, ◌≡◌, ◌↔◌, refl, ap, ◌∙◌, Bool, true, false, some, [], ◌∷◌, ◌++◌, ◌==◌, All, arith, ==_iff,
}
use Prim.Native.Char.{code}
use Prim.Native.String.{String}
use Prim.Native.String
use text.Mathlib.TextLemmas.{nil-append, cons-append}
use fluxor_db.Base.Bytes.{
  Bytes, codes, bytes_eq, has_prefix, contains, trim_right, split, cut, keep,
}

pub bytes_eq_iff : (s t : Bytes) → (bytes_eq s t ≡ true) ↔ (s ≡ t)
unfolding bytes_eq
bytes_eq_iff [] [] = (λ _. refl, λ _. refl)
bytes_eq_iff [] (d ∷ t) = (λ h. cc, λ h. cc)
bytes_eq_iff (c ∷ s) [] = (λ h. cc, λ h. cc)
bytes_eq_iff (c ∷ s) (d ∷ t) =
    let rest = bytes_eq_iff s t in (λ h. ground (arith, rest.0), λ h. ground (arith, rest.1))

-- No byte of the text passes the test.
abbrev pub Free : (ℕ → Bool) → Bytes → Type 0
Free p s = All (λ c. p c ≡ false) s

pub Free-append : (p : ℕ → Bool) (s t : Bytes) → Free p s → Free p t → Free p (s ++ t)
Free-append p [] t h k = k
Free-append p (c ∷ s) t h k = (h.0, Free-append p s t h.1 k)

pub trim_right-Free : (p : ℕ → Bool) (s : Bytes) → Free p s → trim_right p s ≡ s
unfolding trim_right
trim_right-Free p [] h = refl
trim_right-Free p (c ∷ []) h = rw h.0 refl
trim_right-Free p (c ∷ d ∷ s) h = rw (trim_right-Free p (d ∷ s) h.1) refl

-- A last byte of the cutset goes, another stays with all before it.
pub trim_right-last_in :
    (p : ℕ → Bool) (s : Bytes) (c : ℕ) → p c ≡ true → trim_right p (s ++ c ∷ []) ≡ trim_right p s
unfolding trim_right
trim_right-last_in p [] c h = rw h refl
trim_right-last_in p (d ∷ s) c h = ap (keep p d) (trim_right-last_in p s c h)

-- The text's last byte is `c`.
abbrev pub Ends : ℕ → Bytes → Type 0
Ends c [] = ⊥
Ends c (d ∷ []) = d ≡ c
Ends c (d ∷ e ∷ s) = Ends c (e ∷ s)

pub Ends-cons : (c d : ℕ) (s : Bytes) → Ends c s → Ends c (d ∷ s)
Ends-cons c d [] h = absurd h
Ends-cons c d (e ∷ s) h = h

pub Ends-append : (c : ℕ) (s t : Bytes) → Ends c t → Ends c (s ++ t)
Ends-append c [] t h = h
Ends-append c (d ∷ s) t h = Ends-cons c d (s ++ t) (Ends-append c s t h)

pub trim_right-Ends :
    (p : ℕ → Bool) (c : ℕ) (s : Bytes) → p c ≡ false → Ends c s → trim_right p s ≡ s
unfolding trim_right
trim_right-Ends p c [] h k = absurd k
trim_right-Ends p c (d ∷ []) h k = rw (k, h) refl
trim_right-Ends p c (d ∷ e ∷ s) h k = ap (keep p d) (trim_right-Ends p c (e ∷ s) h k)

pub split-last : (sep : ℕ) (s : Bytes) → Free (λ c. c == sep) s → split sep s ≡ s ∷ []
unfolding split
split-last sep [] h = refl
split-last sep (c ∷ s) h = rw (h.0, split-last sep s h.1) refl

pub split-append :
    (sep : ℕ) (s t : Bytes) → Free (λ c. c == sep) s → split sep (s ++ sep ∷ t) ≡ s ∷ split sep t
unfolding split
split-append sep [] t h = rw ((==_iff sep sep).1 refl) refl
split-append sep (c ∷ s) t h = rw (h.0, split-append sep s t h.1) refl

pub cut-append :
    (sep : ℕ) (s t : Bytes) → Free (λ c. c == sep) s → cut sep (s ++ sep ∷ t) ≡ some (s, t)
unfolding cut
cut-append sep [] t h = rw ((==_iff sep sep).1 refl) refl
cut-append sep (c ∷ s) t h = rw (h.0, cut-append sep s t h.1) refl

pub has_prefix-append : (s t : Bytes) → has_prefix (s ++ t) s ≡ true
unfolding has_prefix
has_prefix-append [] [] = refl
has_prefix-append [] (d ∷ t) = refl
has_prefix-append (c ∷ s) t = rw ((==_iff c c).1 refl) (has_prefix-append s t)

contains_prefix : (s t : Bytes) → has_prefix s t ≡ true → contains s t ≡ true
unfolding contains
contains_prefix [] t h = h
contains_prefix (c ∷ s) t h = rw h refl

pub contains-append : (r s t : Bytes) → contains (r ++ s ++ t) s ≡ true
unfolding contains
contains-append [] s t = contains_prefix (s ++ t) s (has_prefix-append s t)
contains-append (c ∷ r) s t = ground (arith, contains-append r s t)

has_prefix_right : (s t u : Bytes) → has_prefix s t ≡ true → has_prefix (s ++ u) t ≡ true
unfolding has_prefix
has_prefix_right s [] u h = refl
has_prefix_right [] (d ∷ t) u h = cc
has_prefix_right (c ∷ s) (d ∷ t) u h = ground (arith, has_prefix_right s t u)

-- What a part contains, the whole contains.
pub contains_right : (s t u : Bytes) → contains s t ≡ true → contains (s ++ u) t ≡ true
unfolding contains
contains_right [] t u h = contains_prefix u t (has_prefix_right [] t u h)
contains_right (c ∷ s) t u h = ground (arith, has_prefix_right (c ∷ s) t u, contains_right s t u)

pub contains_left : (s t u : Bytes) → contains u t ≡ true → contains (s ++ u) t ≡ true
unfolding contains
contains_left [] t u h = h
contains_left (c ∷ s) t u h = ground (arith, contains_left s t u h)

pub codes-append : (s t : String) → codes (Prim.Native.String.◌++◌ s t) ≡ codes s ++ codes t
codes-append String.[] t = ap codes (nil-append t)
codes-append (String.◌∷◌ c s) t =
    ap codes (cons-append c s t) ∙ ap (λ l. code c ∷ l) (codes-append s t)
