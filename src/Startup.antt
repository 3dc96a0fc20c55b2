-- ===== src/Startup.antt =====
-- src/lib.rs and src/state.rs: the gateway that its environment makes. The routes are axum's, and the
-- tasks of the worker and of the health checks are started by tokio.
pub mod Ready
mod Tests
use rust_llm_inference_gatew.Prelude.{
  ℕ, ◌*◌, ◌^◌, Option, none, some, List, [], ◌∷◌, Result, ok, err, length,
}
use rust_llm_inference_gatew.Text.{Text, lit}
use rust_llm_inference_gatew.Env.{Env}
use rust_llm_inference_gatew.Auth.{ApiKeyRegistry, registry_from_env}
use rust_llm_inference_gatew.Batcher.{BatchConfig}
use rust_llm_inference_gatew.Batcher.Config.{batch_config_from_env}
use rust_llm_inference_gatew.Cache.{CacheConfig}
use rust_llm_inference_gatew.Cache.Config.{cache_config_from_env, StoreBackend, store_from_env}
use rust_llm_inference_gatew.Limits.Config.{limiter_from_env}
use rust_llm_inference_gatew.Openai.Config.{OpenAiAdapter, openai_from_env}
use rust_llm_inference_gatew.Router.{BackendRouter, new_router}

pub record MockBackend : Type 0 where
  pub name : Text
  pub token_delay : ℕ

-- `MockBackend::named`; the delay is in nanoseconds.
pub mock_named : Text → MockBackend
mock_named name = record { name = name; token_delay = 35 * 10 ^ 6 }

-- `Arc<dyn InferenceBackend>`, as the gateway makes them.
pub data InferenceBackend (Client : Type 0) : Type 0 where
  openai_backend : OpenAiAdapter Client → InferenceBackend Client
  mock_backend : MockBackend → InferenceBackend Client

-- The configured part of `AppState`, with the backends of its router.
pub record Gateway (Client Redis : Type 0) : Type 0 where
  pub backends : List (InferenceBackend Client)
  pub router : BackendRouter
  pub batch_config : BatchConfig
  pub auth : ApiKeyRegistry
  pub rate_limiter : StoreBackend Redis
  pub response_cache : StoreBackend Redis
  pub cache_config : CacheConfig

module _ {Client Redis : Type 0} (build : ℕ → Result Client Text)
    (open_client : Text → Result Redis Text) where
  -- `AppState::new`
  pub new_state : Env → List (InferenceBackend Client) → Gateway Client Redis
  new_state env backends = record {
    backends = backends;
    router = new_router (length backends);
    batch_config = batch_config_from_env env;
    auth = registry_from_env env;
    rate_limiter = limiter_from_env open_client env;
    response_cache = store_from_env open_client env;
    cache_config = cache_config_from_env env;
  }

  pub backends_of : Option (OpenAiAdapter Client) → List (InferenceBackend Client)
  unfolding mock_named
  backends_of (some adapter) = openai_backend adapter ∷ []
  backends_of none =
      mock_backend (mock_named (lit "mock-a")) ∷ mock_backend (mock_named (lit "mock-b")) ∷ []

  pub built : Env → Result (Option (OpenAiAdapter Client)) Text → Result (Gateway Client Redis) Text
  unfolding new_state backends_of
  built env (err error) = err error
  built env (ok adapter) = ok (new_state env (backends_of adapter))

  pub build_state : Env → Result (Gateway Client Redis) Text
  unfolding built
  build_state env = built env (openai_from_env build env)
