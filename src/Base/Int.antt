-- ===== src/Base/Int.antt =====
-- Signed integers over the native numbers, under the library's names (its ℤ stands on the unary
-- ℕ), and Go's 64-bit integers: an int64 is a ℤ that `int64` wraps, a uint64 a ℕ that `uint64`
-- wraps.
use fluxor_db.Base.{
  ℕ, zero, suc, ◌+◌, ◌-◌, ◌*◌, ◌%◌, ◌≤◌, ◌<◌, ◌≡◌, refl, Bool, arith, ltb, leb, if◌then◌else◌, ap,
  ◌∙◌, ◌⊎◌, inl, inr,
}

-- `negsuc n` is -(n + 1).
pub data ℤ : Type 0 where
  pos : ℕ → ℤ
  negsuc : ℕ → ℤ

abbrev pub pos_part : ℤ → ℕ
pos_part (pos n) = n
pos_part (negsuc n) = 0

abbrev pub neg_part : ℤ → ℕ
neg_part (pos n) = 0
neg_part (negsuc n) = suc n

-- a - b, as an integer.
abbrev pub sub_ℕ : ℕ → ℕ → ℤ
sub_ℕ a b = if leb b a then pos (a - b) else negsuc (b - a - 1)

infixl 65 ◌+ℤ◌ ◌-ℤ◌
infixl 70 ◌*ℤ◌
infix 50 ◌≤ℤ◌ ◌<ℤ◌
unfoldable pub ◌+ℤ◌ : ℤ → ℤ → ℤ
a +ℤ b = sub_ℕ (pos_part a + pos_part b) (neg_part a + neg_part b)

unfoldable pub ◌-ℤ◌ : ℤ → ℤ → ℤ
a -ℤ b = sub_ℕ (pos_part a + neg_part b) (neg_part a + pos_part b)

unfoldable pub ◌*ℤ◌ : ℤ → ℤ → ℤ
a *ℤ b =
    sub_ℕ (pos_part a * pos_part b + neg_part a * neg_part b)
      (pos_part a * neg_part b + neg_part a * pos_part b)

abbrev pub ◌≤ℤ◌ : ℤ → ℤ → Type 0
a ≤ℤ b = pos_part a + neg_part b ≤ pos_part b + neg_part a

abbrev pub ◌<ℤ◌ : ℤ → ℤ → Type 0
a <ℤ b = pos_part a + neg_part b < pos_part b + neg_part a

abbrev pub ltb_ℤ : ℤ → ℤ → Bool
ltb_ℤ a b = ltb (pos_part a + neg_part b) (pos_part b + neg_part a)

abbrev pub leb_ℤ : ℤ → ℤ → Bool
leb_ℤ a b = leb (pos_part a + neg_part b) (pos_part b + neg_part a)

-- The test `x > 0`.
abbrev pub is_pos : ℤ → Bool
is_pos x = ltb 0 (pos_part x)

pub +ℤ_parts :
    (a b : ℤ)
    → pos_part (a +ℤ b) + neg_part a + neg_part b ≡ neg_part (a +ℤ b) + pos_part a + pos_part b
unfolding ◌+ℤ◌
+ℤ_parts a b = ground arith

pub -ℤ_parts :
    (a b : ℤ)
    → pos_part (a -ℤ b) + neg_part a + pos_part b ≡ neg_part (a -ℤ b) + pos_part a + neg_part b
unfolding ◌-ℤ◌
-ℤ_parts a b = ground arith

pub eq_of_parts : (a b : ℤ) → pos_part a + neg_part b ≡ pos_part b + neg_part a → a ≡ b
eq_of_parts a b h = ground arith

-- One of the two parts is zero.
pub parts_exclusive : (a : ℤ) → (pos_part a ≡ 0) ⊎ (neg_part a ≡ 0)
parts_exclusive (pos n) = inr refl
parts_exclusive (negsuc n) = inl refl

pub ruleset int_laws = (arith, +ℤ_parts, -ℤ_parts, eq_of_parts)

-- 2 ^ 63 and 2 ^ 64.
abbrev pub two63 : ℕ
two63 = 9223372036854775808

abbrev pub two64 : ℕ
two64 = 18446744073709551616

unfoldable pub uint64 : ℕ → ℕ
uint64 n = n % two64

-- The residue of an integer modulo 2 ^ 64, and the int64 with that bit pattern.
residue : ℤ → ℕ
residue (pos n) = n % two64
residue (negsuc n) = two64 - 1 - n % two64

of_residue : ℕ → ℤ
of_residue r = if ltb r two63 then pos r else negsuc (two64 - 1 - r)

unfoldable pub int64 : ℤ → ℤ
unfolding residue of_residue
int64 x = of_residue (residue x)

-- The integers that fit an int64.
abbrev pub IsInt64 : ℤ → Type 0
IsInt64 x = (pos_part x < two63) × (neg_part x ≤ two63)

-- What fits is not changed.
pub int64_id : (x : ℤ) → IsInt64 x → int64 x ≡ x
unfolding int64
int64_id (pos n) h = ground arith
int64_id (negsuc n) h = ground arith

-- The result fits.
pub int64-IsInt64 : (x : ℤ) → IsInt64 (int64 x)
unfolding int64
int64-IsInt64 (pos n) = ground arith
int64-IsInt64 (negsuc n) = ground arith

pub uint64_id : (n : ℕ) → n < two64 → uint64 n ≡ n
unfolding uint64
uint64_id n h = omega arith

pub pos-+ℤ-pos : (m n : ℕ) → pos m +ℤ pos n ≡ pos (m + n)
unfolding ◌+ℤ◌
pos-+ℤ-pos m n = ground arith

-- A counter below the top of the range goes up by one.
pub int64_up : (n : ℕ) → n + 1 < two63 → int64 (pos n +ℤ pos 1) ≡ pos (n + 1)
int64_up n h = ap int64 (pos-+ℤ-pos n 1) ∙ int64_id (pos (n + 1)) (omega arith)

pub int64_add :
    (a b : ℤ)
    → pos 0 ≤ℤ a
    → pos 0 ≤ℤ b
    → pos_part a + pos_part b < two63
    → int64 (a +ℤ b) ≡ pos (pos_part a + pos_part b)
int64_add (pos m) (pos n) h k fits =
    ap int64 (pos-+ℤ-pos m n) ∙ int64_id (pos (m + n)) (omega arith)
int64_add (pos m) (negsuc n) h k fits = absurd (omega arith)
int64_add (negsuc m) b h k fits = absurd (omega arith)

pos-suc-down : (n : ℕ) → pos (suc n) -ℤ pos 1 ≡ pos n
unfolding ◌-ℤ◌
pos-suc-down n = ground arith

-- A counter above the bottom of the range goes down by one.
pub int64_down : (a : ℤ) → pos 0 <ℤ a → IsInt64 a → int64 (a -ℤ pos 1) ≡ pos (pos_part a - 1)
int64_down (pos zero) h fits = absurd (omega arith)
int64_down (pos (suc n)) h fits =
    ap int64 (pos-suc-down n) ∙ int64_id (pos n) (omega arith) ∙ ap pos (omega arith)
int64_down (negsuc n) h fits = absurd (omega arith)

-- Below a limit that fits, one more is exact; above the bottom, one less.
pub int64_inc :
    (a m : ℤ)
    → a <ℤ m
    → IsInt64 m
    → IsInt64 a
    → IsInt64 (int64 (a +ℤ pos 1))
      × (pos_part (int64 (a +ℤ pos 1)) + neg_part a
          ≡ neg_part (int64 (a +ℤ pos 1)) + pos_part a + 1)
int64_inc a m h fits fits' =
    let exact : IsInt64 (a +ℤ pos 1) = unfold ◌+ℤ◌ in ground arith in
    rw (int64_id (a +ℤ pos 1) exact) (exact, omega (arith, +ℤ_parts a (pos 1)))

pub int64_dec :
    (a : ℤ)
    → neg_part a < two63
    → IsInt64 a
    → IsInt64 (int64 (a -ℤ pos 1))
      × (pos_part (int64 (a -ℤ pos 1)) + neg_part a + 1
          ≡ neg_part (int64 (a -ℤ pos 1)) + pos_part a)
int64_dec a h fits =
    let exact : IsInt64 (a -ℤ pos 1) = unfold ◌-ℤ◌ in ground arith in
    rw (int64_id (a -ℤ pos 1) exact) (exact, omega (arith, -ℤ_parts a (pos 1)))

wrap_example : int64 (pos 9223372036854775807 +ℤ pos 1) ≡ negsuc 9223372036854775807
unfolding int64 ◌+ℤ◌
wrap_example = refl
