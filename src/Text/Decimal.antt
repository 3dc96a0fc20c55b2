-- ===== src/Text/Decimal.antt =====
-- `to_string` of an unsigned integer.
pub mod Parse
use rust_llm_inference_gatew.Prelude.{
  ℕ, zero, suc, ◌+◌, ◌*◌, ◌/◌, ◌%◌, ◌-◌, ◌<◌, ◌≤◌, ◌≡◌, refl, ap, sym, ◌∙◌, inl, inr, [], ◌∷◌, ◌++◌,
  arith, ltb, if◌then◌else◌, Bool-cases, All, All-append,
}
use mathlib.Core.List.{foldl, foldl-append}
use rust_llm_inference_gatew.Text.{Text}

-- The fuel bounds the number of digits.
decimal_digits : ℕ → ℕ → Text
decimal_digits zero n = []
decimal_digits (suc f) n =
    let high = decimal_digits f (n / 10) in
    if ltb n 10 then (48 + n) ∷ [] else high ++ (48 + n % 10) ∷ []

unfoldable pub to_decimal : ℕ → Text
unfolding decimal_digits
to_decimal n = decimal_digits (suc n) n

abbrev add_digit : ℕ → ℕ → ℕ
add_digit acc c = acc * 10 + (c - 48)

read_decimal : Text → ℕ
read_decimal s = foldl add_digit 0 s

read-decimal_digits : (f n : ℕ) → n < f → read_decimal (decimal_digits f n) ≡ n
unfolding read_decimal decimal_digits
read-decimal_digits zero n h = elim h [ ]
read-decimal_digits (suc f) n h = elim (Bool-cases (ltb n 10)) [
  | inl small ↦ rw small (omega arith)
  | inr large ↦ rw (large, foldl-append) (ground (arith, read-decimal_digits f (n / 10)))
]

-- Two numbers with one decimal form are equal.
pub to_decimal_injective : (a b : ℕ) → to_decimal a ≡ to_decimal b → a ≡ b
unfolding to_decimal
to_decimal_injective a b e =
    sym (read-decimal_digits (suc a) a (omega arith))
    ∙ ap read_decimal e
    ∙ read-decimal_digits (suc b) b (omega arith)

abbrev pub IsDigit : ℕ → Type 0
IsDigit c = (48 ≤ c) × (c ≤ 57)

decimal_digits-IsDigit : (f n : ℕ) → All IsDigit (decimal_digits f n)
unfolding decimal_digits
decimal_digits-IsDigit zero n = tt
decimal_digits-IsDigit (suc f) n = elim (Bool-cases (ltb n 10)) [
  | inl small ↦ rw small (ground arith)
  | inr large ↦ rw large (All-append IsDigit _ _ (decimal_digits-IsDigit f (n / 10)) (omega arith))
]

pub to_decimal-IsDigit : (n : ℕ) → All IsDigit (to_decimal n)
unfolding to_decimal
to_decimal-IsDigit n = decimal_digits-IsDigit (suc n) n

to_decimal_limit :
    to_decimal 18446744073709551615
    ≡ 49 ∷ 56 ∷ 52 ∷ 52 ∷ 54 ∷ 55 ∷ 52 ∷ 52 ∷ 48 ∷ 55 ∷ 51 ∷ 55 ∷ 48 ∷ 57 ∷ 53 ∷ 53 ∷ 49 ∷ 54 ∷ 49
      ∷ 53 ∷ []
unfolding to_decimal
to_decimal_limit = refl
