-- ===== src/Auth/Policy.antt =====
-- The policy that src/auth.rs reads from the environment.
use rust_llm_inference_gatew.Prelude.{ℕ, ◌≤◌, ◌≡◌, refl, ap, some, arith, u32_max, u64_max}
use rust_llm_inference_gatew.Text.{Text, lit}
use rust_llm_inference_gatew.Text.Decimal.{to_decimal}
use rust_llm_inference_gatew.Env.{Env, unwrap_or, unwrap_or-parsed-le, parsed-to_decimal}
use rust_llm_inference_gatew.Limits.Snapshot.{RatePolicy}
use rust_llm_inference_gatew.Auth.{registry_from_env, policy_from_env, read_u32, read_u64}

-- The limits fit their types.
pub record IsPolicy (p : RatePolicy) : Type 0 where
  pub requests : p.requests_per_minute ≤ u32_max
  pub minute_tokens : p.tokens_per_minute ≤ u64_max
  pub day_tokens : p.tokens_per_day ≤ u64_max

-- Whatever the environment holds, the limits of the policy fit their types.
pub registry_from_env-IsPolicy : (env : Env) → IsPolicy (registry_from_env env).policy
unfolding registry_from_env policy_from_env read_u32 read_u64
registry_from_env-IsPolicy env = record {
  requests =
      unwrap_or-parsed-le u32_max 120 (env (lit "GATEWAY_LIMIT_REQUESTS_PER_MINUTE")) (omega arith);
  minute_tokens =
      unwrap_or-parsed-le u64_max 120000 (env (lit "GATEWAY_LIMIT_TOKENS_PER_MINUTE"))
        (omega arith);
  day_tokens =
      unwrap_or-parsed-le u64_max 2000000 (env (lit "GATEWAY_LIMIT_TOKENS_PER_DAY")) (omega arith);
}

-- The environment holds the decimal form of a policy.
pub record Configures (env : Env) (p : RatePolicy) : Type 0 where
  pub requests :
      env (lit "GATEWAY_LIMIT_REQUESTS_PER_MINUTE") ≡ some (to_decimal p.requests_per_minute)
  pub minute_tokens :
      env (lit "GATEWAY_LIMIT_TOKENS_PER_MINUTE") ≡ some (to_decimal p.tokens_per_minute)
  pub day_tokens : env (lit "GATEWAY_LIMIT_TOKENS_PER_DAY") ≡ some (to_decimal p.tokens_per_day)

read_u32-to_decimal :
    (env : Env) (name : Text) (default n : ℕ)
    → n ≤ u32_max
    → env name ≡ some (to_decimal n)
    → read_u32 env name default ≡ n
unfolding read_u32 unwrap_or
read_u32-to_decimal env name default n h e =
    ap (unwrap_or default) (parsed-to_decimal u32_max n (env name) h e)

read_u64-to_decimal :
    (env : Env) (name : Text) (default n : ℕ)
    → n ≤ u64_max
    → env name ≡ some (to_decimal n)
    → read_u64 env name default ≡ n
unfolding read_u64 unwrap_or
read_u64-to_decimal env name default n h e =
    ap (unwrap_or default) (parsed-to_decimal u64_max n (env name) h e)

-- A policy whose limits fit their types is read back from its decimal form in the environment.
pub registry_from_env-policy :
    (env : Env) (p : RatePolicy)
    → IsPolicy p
    → Configures env p
    → (registry_from_env env).policy ≡ p
unfolding registry_from_env policy_from_env
registry_from_env-policy env p v c =
    rw
      (
        read_u32-to_decimal env (lit "GATEWAY_LIMIT_REQUESTS_PER_MINUTE") 120 p.requests_per_minute
            v.requests c.requests,
        read_u64-to_decimal env (lit "GATEWAY_LIMIT_TOKENS_PER_MINUTE") 120000 p.tokens_per_minute
            v.minute_tokens c.minute_tokens,
        read_u64-to_decimal env (lit "GATEWAY_LIMIT_TOKENS_PER_DAY") 2000000 p.tokens_per_day
            v.day_tokens c.day_tokens,
      )
      refl
