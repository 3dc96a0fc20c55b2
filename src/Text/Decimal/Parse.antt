-- ===== src/Text/Decimal/Parse.antt =====
-- `str::parse` at the unsigned integer types: an optional `+` and one digit at least, with a check for
-- overflow at each digit. The largest value of the type is the argument `max`.
use rust_llm_inference_gatew.Prelude.{
  ℕ, zero, suc, ◌+◌, ◌*◌, ◌/◌, ◌%◌, ◌-◌, ◌<◌, ◌≤◌, ◌≡◌, ◌≢◌, refl, sym, ap, ◌∙◌, ◌&&◌, Option, none,
  some, [], ◌∷◌, ◌++◌, arith, ltb, leb, ◌==◌, if◌then◌else◌, All, Bool-cases, Option-cases, inl,
  inr,
}
use rust_llm_inference_gatew.Text.{Text}
use rust_llm_inference_gatew.Text.Decimal.{IsDigit, to_decimal, decimal_digits, to_decimal-IsDigit}

-- One digit more.
push_digit : ℕ → ℕ → ℕ → Option ℕ
push_digit max acc c =
    if leb 48 c && leb c 57 && leb (acc * 10 + (c - 48)) max
    then some (acc * 10 + (c - 48))
    else none

parse_digits : ℕ → ℕ → Text → Option ℕ
parse_digits max acc [] = some acc
parse_digits max acc (c ∷ s) = elim (push_digit max acc c) [
  | none ↦ none
  | some n ↦ parse_digits max n s
]

parse_nonempty : ℕ → Text → Option ℕ
parse_nonempty max [] = none
parse_nonempty max (c ∷ s) = parse_digits max 0 (c ∷ s)

-- The character `+` is 43.
unfoldable pub parse_unsigned : ℕ → Text → Option ℕ
unfolding parse_nonempty parse_digits push_digit
parse_unsigned max [] = none
parse_unsigned max (c ∷ s) = if c == 43 then parse_nonempty max s else parse_nonempty max (c ∷ s)

parse_digits_step :
    (max acc c : ℕ) (s : Text) (m : ℕ)
    → push_digit max acc c ≡ some m
    → parse_digits max acc (c ∷ s) ≡ parse_digits max m s
unfolding parse_digits
parse_digits_step max acc c s m e = rw (e, parse_digits) refl

parse_digits_stop :
    (max acc c : ℕ) (s : Text) → push_digit max acc c ≡ none → parse_digits max acc (c ∷ s) ≡ none
unfolding parse_digits
parse_digits_stop max acc c s e = rw (e, parse_digits) refl

parse_digits-append :
    (max acc : ℕ) (s t : Text) (n : ℕ)
    → parse_digits max acc s ≡ some n
    → parse_digits max acc (s ++ t) ≡ parse_digits max n t
parse_digits-append max acc [] t n h = unfold parse_digits in ground arith
parse_digits-append max acc (c ∷ s) t n h = elim (Option-cases (push_digit max acc c)) [
  | inl e ↦ cc (parse_digits_stop max acc c s e)
  | inr (m, e) ↦
      parse_digits_step max acc c (s ++ t) m e
      ∙ parse_digits-append max m s t n (sym (parse_digits_step max acc c s m e) ∙ h)
]

parse_digits-digit :
    (max acc d : ℕ)
    → d < 10
    → acc * 10 + d ≤ max
    → parse_digits max acc ((48 + d) ∷ []) ≡ some (acc * 10 + d)
unfolding parse_digits push_digit
parse_digits-digit max acc d h k = ground arith

parse_digits-decimal_digits :
    (max f n : ℕ) → n < f → n ≤ max → parse_digits max 0 (decimal_digits f n) ≡ some n
unfolding decimal_digits
parse_digits-decimal_digits max zero n h k = elim h [ ]
parse_digits-decimal_digits max (suc f) n h k = elim (Bool-cases (ltb n 10)) [
  | inl small ↦
      rw small (parse_digits-digit max 0 n (ground arith) (omega arith) ∙ ap some (omega arith))
  | inr large ↦ rw large (
      parse_digits-append max 0 (decimal_digits f (n / 10)) ((48 + n % 10) ∷ []) (n / 10)
        (parse_digits-decimal_digits max f (n / 10) (ground arith) (omega arith))
      ∙ parse_digits-digit max (n / 10) (n % 10) (omega arith) (omega arith)
      ∙ ap some (omega arith))
]

push_digit-le : (max acc c m : ℕ) → push_digit max acc c ≡ some m → m ≤ max
unfolding push_digit
push_digit-le max acc c m h = ground arith

parse_digits-le :
    (max acc : ℕ) (s : Text) (n : ℕ) → acc ≤ max → parse_digits max acc s ≡ some n → n ≤ max
parse_digits-le max acc [] n a h = unfold parse_digits in ground arith
parse_digits-le max acc (c ∷ s) n a h = elim (Option-cases (push_digit max acc c)) [
  | inl e ↦ absurd (cc (parse_digits_stop max acc c s e))
  | inr (m, e) ↦
      parse_digits-le max m s n (push_digit-le max acc c m e)
        (sym (parse_digits_step max acc c s m e) ∙ h)
]

parse_nonempty-le : (max : ℕ) (s : Text) (n : ℕ) → parse_nonempty max s ≡ some n → n ≤ max
unfolding parse_nonempty
parse_nonempty-le max [] n h = cc
parse_nonempty-le max (c ∷ s) n h = parse_digits-le max 0 (c ∷ s) n (omega arith) h

-- What is parsed is within the type.
pub parse_unsigned-le : (max : ℕ) (s : Text) (n : ℕ) → parse_unsigned max s ≡ some n → n ≤ max
unfolding parse_unsigned
parse_unsigned-le max [] n h = cc
parse_unsigned-le max (c ∷ s) n h =
    ground (arith, parse_nonempty-le max s n, parse_nonempty-le max (c ∷ s) n)

parse_unsigned-digits :
    (max : ℕ) (s : Text) (n : ℕ)
    → All IsDigit s
    → s ≢ []
    → parse_digits max 0 s ≡ some n
    → parse_unsigned max s ≡ some n
unfolding parse_unsigned parse_nonempty
parse_unsigned-digits max [] n v full h = absurd (full refl)
parse_unsigned-digits max (c ∷ s) n v full h = elim (Bool-cases (c == 43)) [
  | inl plus ↦ absurd (ground arith)
  | inr digit ↦ rw digit h
]

snoc-ne-nil : (s : Text) (c : ℕ) → s ++ c ∷ [] ≢ []
snoc-ne-nil [] c e = cc
snoc-ne-nil (x ∷ s) c e = cc

to_decimal-ne-nil : (n : ℕ) → to_decimal n ≢ []
unfolding to_decimal decimal_digits
to_decimal-ne-nil n e = elim (Bool-cases (ltb n 10)) [
  | inl small ↦ ground arith
  | inr large ↦ snoc-ne-nil (decimal_digits n (n / 10)) (48 + n % 10) (ground arith)
]

-- A number that its type can hold is read back from its decimal form.
pub parse_unsigned-to_decimal : (max n : ℕ) → n ≤ max → parse_unsigned max (to_decimal n) ≡ some n
parse_unsigned-to_decimal max n h =
    parse_unsigned-digits max (to_decimal n) n (to_decimal-IsDigit n) (to_decimal-ne-nil n)
      (unfold to_decimal in parse_digits-decimal_digits max (suc n) n (omega arith) h)
