-- ===== src/Startup/Ready.antt =====
-- A gateway that src/lib.rs has built can take requests.
use rust_llm_inference_gatew.Prelude.{ℕ, ◌<◌, ◌≡◌, ok, length}
use rust_llm_inference_gatew.Text.{Text}
use rust_llm_inference_gatew.Env.{Env}
use rust_llm_inference_gatew.Auth.Policy.{IsPolicy}
use rust_llm_inference_gatew.Router.{select_endpoint}
use rust_llm_inference_gatew.Startup.{Gateway}

-- The router has an endpoint for each backend and takes the first one at its first selection; the limits
-- fit their types, and a batch has room for a request.
pub record IsReady {Client Redis : Type 0} (g : Gateway Client Redis) : Type 0 where
  pub endpoints : length g.router.endpoints ≡ length g.backends
  pub selects : (now : ℕ) → (select_endpoint g.router now).1 ≡ ok 0
  pub policy : IsPolicy g.auth.policy
  pub batches : 0 < g.batch_config.max_batch_size
