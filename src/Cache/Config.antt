-- ===== src/Cache/Config.antt =====
-- What src/cache.rs and src/limits.rs read from the environment: the time to live, and the backend.
use rust_llm_inference_gatew.Prelude.{
  ◌*◌, ◌^◌, Option, none, some, Result, ok, err, if◌then◌else◌, u64_max,
}
use rust_llm_inference_gatew.Text.{Text, lit, trim, is_empty}
use rust_llm_inference_gatew.Env.{Env, unwrap_or, parsed}
use rust_llm_inference_gatew.Cache.{CacheConfig}

-- `CacheConfig::from_env`; the time to live is in nanoseconds.
pub cache_config_from_env : Env → CacheConfig
cache_config_from_env env = record {
  ttl = unwrap_or 90 (parsed u64_max (env (lit "GATEWAY_CACHE_TTL_SECS"))) * 10 ^ 9;
}

-- `CacheBackend` and `RateLimiterBackend`.
pub data StoreBackend (Client : Type 0) : Type 0 where
  in_process : StoreBackend Client
  in_redis : Client → Text → StoreBackend Client

-- `redis::Client::open` is the parameter `open_client`.
module _ {Client : Type 0} (open_client : Text → Result Client Text) where
  pub opened : Env → Result Client Text → StoreBackend Client
  opened env (ok client) =
      in_redis client (unwrap_or (lit "gateway") (env (lit "GATEWAY_REDIS_PREFIX")))
  opened env (err error) = in_process

  pub store_at : Env → Option Text → StoreBackend Client
  unfolding opened
  store_at env none = in_process
  store_at env (some redis_url) =
      if is_empty (trim redis_url) then in_process else opened env (open_client redis_url)

  -- `ResponseCache::from_env` and `RateLimiter::from_env`
  pub store_from_env : Env → StoreBackend Client
  unfolding store_at
  store_from_env env = store_at env (env (lit "REDIS_URL"))
