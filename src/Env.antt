-- ===== src/Env.antt =====
-- The environment variables of the process, as `std::env::var(..).ok()` reads them.
use rust_llm_inference_gatew.Prelude.{
  ℕ, ◌≤◌, ◌≡◌, ap, ◌∙◌, Option, none, some, Option-cases, inl, inr,
}
use rust_llm_inference_gatew.Text.{Text}
use rust_llm_inference_gatew.Text.Decimal.{to_decimal}
use rust_llm_inference_gatew.Text.Decimal.Parse.{
  parse_unsigned, parse_unsigned-le, parse_unsigned-to_decimal,
}

abbrev pub Env : Type 0
Env = Text → Option Text

-- `unwrap_or`
unfoldable pub unwrap_or {ℓ} : {A : Type ℓ} → A → Option A → A
unwrap_or a none = a
unwrap_or a (some b) = b

-- `.and_then(|value| value.parse().ok())`
unfoldable pub parsed : ℕ → Option Text → Option ℕ
parsed max none = none
parsed max (some value) = parse_unsigned max value

pub unwrap_or-parsed-le :
    (max default : ℕ) (value : Option Text)
    → default ≤ max
    → unwrap_or default (parsed max value) ≤ max
unfolding parsed unwrap_or
unwrap_or-parsed-le max default none h = h
unwrap_or-parsed-le max default (some value) h = elim (Option-cases (parse_unsigned max value)) [
  | inl e ↦ rw (e, unwrap_or) h
  | inr (n, e) ↦ rw (e, unwrap_or) (parse_unsigned-le max value n e)
]

pub parsed-to_decimal :
    (max n : ℕ) (value : Option Text)
    → n ≤ max
    → value ≡ some (to_decimal n)
    → parsed max value ≡ some n
unfolding parsed
parsed-to_decimal max n value h e = ap (parsed max) e ∙ parse_unsigned-to_decimal max n h
