-- ===== src/Limits/Config.antt =====
-- `RateLimiter` of src/limits.rs with its Redis backend, and `RateLimiter::from_env`, which reads the
-- same variables in the same way as `ResponseCache::from_env`.
use rust_llm_inference_gatew.Prelude.{Bool, Result, ◌==◌, if◌then◌else◌}
use rust_llm_inference_gatew.Text.{Text}
use rust_llm_inference_gatew.Env.{Env}
use rust_llm_inference_gatew.Cache.Config.{StoreBackend, store_from_env}
use rust_llm_inference_gatew.Limits.Interface.{RateLimiter}
use rust_llm_inference_gatew.Limits.Redis.{
  Redis, Link, check_and_consume_redis, reconcile_tokens_redis,
}

-- How the calls of Redis go depends on its state.
abbrev pub redis_limiter :
    (R : Redis) → (R.State → Link R.State) → (R.State → Bool) → Text → RateLimiter
redis_limiter R link connected prefix = record {
  State = R.State;
  check_and_consume = λ s api_key policy estimated_tokens now.
      check_and_consume_redis R (link s) s prefix api_key policy estimated_tokens now;
  reconcile = λ s api_key estimated actual now.
      if estimated == actual
      then s
      else reconcile_tokens_redis R (connected s) s prefix api_key estimated actual now;
}

pub limiter_from_env : {Client : Type 0} → (Text → Result Client Text) → Env → StoreBackend Client
limiter_from_env open_client env = store_from_env open_client env
