-- ===== src/Auth/Tests.antt =====
-- A registry of two keys of src/auth.rs.
use rust_llm_inference_gatew.Prelude.{
  err, In, ◌≡◌, refl, none, some, List, [], ◌∷◌, ok, arith, if◌then◌else◌, All, In,
}
use rust_llm_inference_gatew.Text.{Text, lit, text_eq, trim, is_empty, is_whitespace}
use rust_llm_inference_gatew.Text.Decimal.{to_decimal}
use rust_llm_inference_gatew.Text.Split.{join}
use rust_llm_inference_gatew.Env.{Env}
use rust_llm_inference_gatew.Errors.{unauthorized}
use rust_llm_inference_gatew.Limits.Snapshot.{RatePolicy}
use rust_llm_inference_gatew.Auth.{AuthContext, registry_from_env, authenticate}
use rust_llm_inference_gatew.Auth.Keys.{IsKey, authenticate-decides}
use rust_llm_inference_gatew.Auth.Policy.{registry_from_env-policy}

abbrev keys : List Text
keys = (97 ∷ 98 ∷ []) ∷ (99 ∷ []) ∷ []

abbrev policy : RatePolicy
policy = record { requests_per_minute = 3; tokens_per_minute = 50; tokens_per_day = 700 }

env : Env
env name =
    if text_eq name (lit "GATEWAY_API_KEYS")
    then some (join 44 keys)
    else if text_eq name (lit "GATEWAY_LIMIT_REQUESTS_PER_MINUTE")
    then some (to_decimal 3)
    else if text_eq name (lit "GATEWAY_LIMIT_TOKENS_PER_MINUTE")
    then some (to_decimal 50)
    else if text_eq name (lit "GATEWAY_LIMIT_TOKENS_PER_DAY")
    then some (to_decimal 700)
    else none

keys-IsKey : All IsKey keys
unfolding trim is_empty is_whitespace
keys-IsKey = (
  record { trimmed = refl; full = refl; no_comma = (refl, (refl, tt)) },
  (record { trimmed = refl; full = refl; no_comma = (refl, tt) }, tt),
)

-- The header is " c".
authenticate-decides_example :
    (In (trim (32 ∷ 99 ∷ [])) keys
      → (context : AuthContext) × (authenticate (registry_from_env env) (some (32 ∷ 99 ∷ []))
          ≡ ok context)
        × (context.api_key ≡ trim (32 ∷ 99 ∷ [])))
    × (¬ In (trim (32 ∷ 99 ∷ [])) keys
        → (message : Text) × (authenticate (registry_from_env env) (some (32 ∷ 99 ∷ []))
            ≡ err (unauthorized message)))
unfolding env text_eq lit
authenticate-decides_example =
    authenticate-decides env keys (32 ∷ 99 ∷ []) (λ e. cc) keys-IsKey refl

registry_from_env-policy_example : (registry_from_env env).policy ≡ policy
unfolding env text_eq lit
registry_from_env-policy_example =
    registry_from_env-policy env policy
      (record { requests = omega arith; minute_tokens = omega arith; day_tokens = omega arith })
      (record { requests = refl; minute_tokens = refl; day_tokens = refl })
