-- ===== src/Errors/Responses.antt =====
-- The headers of a refusal of src/errors.rs.
use rust_llm_inference_gatew.Prelude.{
  ◌≡◌, refl, ◌∙◌, Bool, true, false, some, List, [], ◌∷◌, arith, All,
}
use rust_llm_inference_gatew.Text.{Text, lit, text_eq, text_eq_refl}
use rust_llm_inference_gatew.HashMap.{HashMap, empty, get, get-insert}
use rust_llm_inference_gatew.Limits.Snapshot.{RateLimitSnapshot, to_header_pairs}
use rust_llm_inference_gatew.Errors.{
  rate_limited, apply_header, apply_headers, make_error_response, into_response,
}

abbrev Other : Text → List (Text × Text) → Type 0
Other name pairs = All (λ pair. text_eq pair.0 name ≡ false) pairs

abbrev Distinct : List (Text × Text) → Type 0
Distinct [] = Unit
Distinct ((name, value) ∷ pairs) = Other name pairs × Distinct pairs

-- A map of headers has each of the pairs.
abbrev pub HasAll : HashMap Text → List (Text × Text) → Type 0
HasAll headers pairs = All (λ pair. get headers pair.0 ≡ some pair.1) pairs

module _ (is_header : Text → Text → Bool) where
  -- The http crate accepts each of the pairs.
  abbrev pub Passes : List (Text × Text) → Type 0
  Passes pairs = All (λ pair. is_header pair.0 pair.1 ≡ true) pairs

  apply_headers-get-Other :
      (headers : HashMap Text) (name : Text) (pairs : List (Text × Text))
      → Other name pairs
      → get (apply_headers is_header headers pairs) name ≡ get headers name
  unfolding apply_headers apply_header
  apply_headers-get-Other headers name [] v = refl
  apply_headers-get-Other headers name ((n, value) ∷ pairs) (h, v) =
      apply_headers-get-Other (apply_header is_header headers n value) name pairs v
      ∙ ground (arith, get-insert headers n name value)

  apply_headers-HasAll :
      (headers : HashMap Text) (pairs : List (Text × Text))
      → Distinct pairs
      → Passes pairs
      → HasAll (apply_headers is_header headers pairs) pairs
  unfolding apply_headers apply_header
  apply_headers-HasAll headers [] d p = tt
  apply_headers-HasAll headers ((n, value) ∷ pairs) (o, d) (h, p) = (
    apply_headers-get-Other (apply_header is_header headers n value) n pairs o
        ∙ ground (arith, get-insert headers n n value, text_eq_refl n),
    apply_headers-HasAll (apply_header is_header headers n value) pairs d p,
  )

  to_header_pairs-Distinct : (s : RateLimitSnapshot) → Distinct (to_header_pairs s)
  unfolding to_header_pairs text_eq lit
  to_header_pairs-Distinct s = ground arith

  -- A refusal of the rate limiter is answered with status 429, its message, and the eight headers of its
  -- snapshot with their values, if the http crate accepts those.
  pub into_response-HasAll :
      (message : Text) (s : RateLimitSnapshot)
      → Passes (to_header_pairs s)
      → let response = into_response is_header (rate_limited message (to_header_pairs s)) in
        (response.status ≡ 429)
        × (response.body.message ≡ message)
        × HasAll response.headers (to_header_pairs s)
  unfolding into_response make_error_response
  into_response-HasAll message s p =
      (refl, refl, apply_headers-HasAll empty (to_header_pairs s) (to_header_pairs-Distinct s) p)
