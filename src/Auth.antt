-- ===== src/Auth.antt =====
-- src/auth.rs: the API keys and the policy of the gateway, from its environment.
mod Keys
pub mod Policy
mod Tests
use rust_llm_inference_gatew.Prelude.{
  ℕ, Bool, false, ◌||◌, Option, none, some, List, [], ◌∷◌, ◌++◌, map, take, Result, ok, err,
  if◌then◌else◌, u32_max, u64_max,
}
use rust_llm_inference_gatew.Text.{Text, lit, text_eq, trim, is_empty}
use rust_llm_inference_gatew.Text.Split.{split}
use rust_llm_inference_gatew.Env.{Env, unwrap_or, parsed}
use rust_llm_inference_gatew.Errors.{AppError, unauthorized}
use rust_llm_inference_gatew.Limits.Snapshot.{RatePolicy}

pub record AuthContext : Type 0 where
  pub api_key : Text
  pub user_id : Text
  pub policy : RatePolicy

-- The set of keys is a list, of which only membership is asked.
pub record ApiKeyRegistry : Type 0 where
  pub valid_keys : List Text
  pub policy : RatePolicy

unfoldable pub read_u32 : Env → Text → ℕ → ℕ
read_u32 env name default = unwrap_or default (parsed u32_max (env name))

unfoldable pub read_u64 : Env → Text → ℕ → ℕ
read_u64 env name default = unwrap_or default (parsed u64_max (env name))

-- `.filter(|key| !key.is_empty())`, after `.map(str::trim)`
pub trimmed_keys : List Text → List Text
trimmed_keys [] = []
trimmed_keys (key ∷ keys) =
    let rest = trimmed_keys keys in if is_empty (trim key) then rest else trim key ∷ rest

pub or_dev_key : List Text → List Text
or_dev_key [] = lit "dev-key" ∷ []
or_dev_key (key ∷ keys) = key ∷ keys

-- The character `,` is 44.
pub keys_from_env : Env → List Text
unfolding trimmed_keys or_dev_key
keys_from_env env =
    or_dev_key (trimmed_keys (split 44 (unwrap_or (lit "dev-key") (env (lit "GATEWAY_API_KEYS")))))

pub policy_from_env : Env → RatePolicy
policy_from_env env = record {
  requests_per_minute = read_u32 env (lit "GATEWAY_LIMIT_REQUESTS_PER_MINUTE") 120;
  tokens_per_minute = read_u64 env (lit "GATEWAY_LIMIT_TOKENS_PER_MINUTE") 120000;
  tokens_per_day = read_u64 env (lit "GATEWAY_LIMIT_TOKENS_PER_DAY") 2000000;
}

-- `ApiKeyRegistry::from_env`
unfoldable pub registry_from_env : Env → ApiKeyRegistry
unfolding keys_from_env policy_from_env
registry_from_env env = record { valid_keys = keys_from_env env; policy = policy_from_env env }

-- `HashSet::contains`
pub contains : List Text → Text → Bool
contains [] key = false
contains (k ∷ keys) key = text_eq k key || contains keys key

unfoldable pub redact_key : Text → Text
redact_key key = take 8 key

-- The key of the request, from what `headers.get("x-api-key")` and `to_str` yield.
pub api_key_of : Option Text → Option Text
api_key_of none = none
api_key_of (some value) = if is_empty (trim value) then none else some (trim value)

pub authenticate_key : ApiKeyRegistry → Option Text → Result AuthContext AppError
unfolding contains redact_key
authenticate_key registry none = err (unauthorized (lit "missing x-api-key header"))
authenticate_key registry (some api_key) =
    if contains registry.valid_keys api_key
    then ok (record {
      api_key = api_key;
      user_id = lit "key_" ++ redact_key api_key;
      policy = registry.policy;
    })
    else err (unauthorized (lit "invalid api key"))

unfoldable pub authenticate : ApiKeyRegistry → Option Text → Result AuthContext AppError
unfolding api_key_of authenticate_key
authenticate registry header = authenticate_key registry (api_key_of header)
