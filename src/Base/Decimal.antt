-- ===== src/Base/Decimal.antt =====
-- Decimal texts, as `fmt.Sprintf("%d", n)` writes a uint64.
use Prim.Native.Char.{Char, code}
use fluxor_db.Base.{
  ℕ, zero, suc, ◌+◌, ◌-◌, ◌*◌, ◌/◌, ◌%◌, ◌<◌, ◌≡◌, ◌∙◌, sym, ap, refl, String, arith, ltb,
  if◌then◌else◌, Bool-cases, inl, inr, ltb→lt,
}

abbrev digit : ℕ → Char
digit zero = "0"
digit (suc zero) = "1"
digit (suc (suc zero)) = "2"
digit (suc (suc (suc zero))) = "3"
digit (suc (suc (suc (suc zero)))) = "4"
digit (suc (suc (suc (suc (suc zero))))) = "5"
digit (suc (suc (suc (suc (suc (suc zero)))))) = "6"
digit (suc (suc (suc (suc (suc (suc (suc zero))))))) = "7"
digit (suc (suc (suc (suc (suc (suc (suc (suc zero)))))))) = "8"
digit _ = "9"

-- The digits of `n` in front of `rest`; `n` rounds are enough, since the number falls tenfold.
prepend_digits : ℕ → ℕ → String → String
prepend_digits zero n rest = String.◌∷◌ (digit (n % 10)) rest
prepend_digits (suc fuel) n rest =
    let more = prepend_digits fuel (n / 10) (String.◌∷◌ (digit (n % 10)) rest) in
    if ltb n 10 then String.◌∷◌ (digit n) rest else more

unfoldable pub decimal : ℕ → String
unfolding prepend_digits
decimal n = prepend_digits n n ""

decimal_example : decimal 90210 ≡ "90210"
unfolding decimal
decimal_example = refl

-- The number that a text of digits stands for, after what was read.
value : ℕ → String → ℕ
value acc String.[] = acc
value acc (String.◌∷◌ c s) = value (10 * acc + (code c - 48)) s

code-digit : (d : ℕ) → d < 10 → code (digit d) - 48 ≡ d
code-digit zero h = refl
code-digit (suc zero) h = refl
code-digit (suc (suc zero)) h = refl
code-digit (suc (suc (suc zero))) h = refl
code-digit (suc (suc (suc (suc zero)))) h = refl
code-digit (suc (suc (suc (suc (suc zero))))) h = refl
code-digit (suc (suc (suc (suc (suc (suc zero)))))) h = refl
code-digit (suc (suc (suc (suc (suc (suc (suc zero))))))) h = refl
code-digit (suc (suc (suc (suc (suc (suc (suc (suc zero)))))))) h = refl
code-digit (suc (suc (suc (suc (suc (suc (suc (suc (suc zero))))))))) h = refl
code-digit (suc (suc (suc (suc (suc (suc (suc (suc (suc (suc d)))))))))) h = absurd (omega arith)

value-digit :
    (acc d : ℕ) (rest : String)
    → d < 10
    → value acc (String.◌∷◌ (digit d) rest) ≡ value (10 * acc + d) rest
unfolding value
value-digit acc d rest h = ap (λ t. value (10 * acc + t) rest) (code-digit d h)

value-prepend_digits :
    (fuel n : ℕ) (rest : String)
    → n < suc fuel
    → value 0 (prepend_digits fuel n rest) ≡ value n rest
unfolding prepend_digits
value-prepend_digits zero n rest h =
    value-digit 0 (n % 10) rest (omega arith)
    ∙ ap (λ t. value t rest) (let e : 10 * 0 + n % 10 ≡ n = omega arith in e)
value-prepend_digits (suc fuel) n rest h = elim (Bool-cases (ltb n 10)) [
  | inl small ↦
      rw small (value-digit 0 n rest (ltb→lt n 10 small) ∙ ap (λ t. value t rest) (omega arith))
  | inr large ↦ rw large (
      value-prepend_digits fuel (n / 10) _ (ground arith)
      ∙ value-digit (n / 10) (n % 10) rest (omega arith)
      ∙ ap (λ t. value t rest) (omega arith))
]

-- Different numbers have different texts.
pub decimal_injective : (m n : ℕ) → decimal m ≡ decimal n → m ≡ n
unfolding decimal value
decimal_injective m n e =
    sym (value-prepend_digits m m "" (omega arith))
    ∙ ap (value 0) e
    ∙ value-prepend_digits n n "" (omega arith)
