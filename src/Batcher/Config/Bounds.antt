-- ===== src/Batcher/Config/Bounds.antt =====
-- The sizes of the batches of a worker that the environment configures.
use rust_llm_inference_gatew.Prelude.{
  ℕ, ◌≤◌, ◌<◌, ◌≡◌, Option, none, some, List, [], ◌∷◌, u64_max, arith, All, length,
}
use rust_llm_inference_gatew.Text.{lit}
use rust_llm_inference_gatew.Env.{Env, unwrap_or, parsed, unwrap_or-parsed-le}
use rust_llm_inference_gatew.Batcher.{BatchItem, Signal, run_batch_worker}
use rust_llm_inference_gatew.Batcher.Conservation.Worker.{run_batch_worker-Served}
use rust_llm_inference_gatew.Batcher.Config.{positive, batch_config_from_env}

positive-bounds :
    (default limit : ℕ) (value : Option ℕ)
    → 0 < default
    → default ≤ limit
    → unwrap_or 0 value ≤ limit
    → (0 < unwrap_or default (positive value)) × (unwrap_or default (positive value) ≤ limit)
unfolding positive unwrap_or
positive-bounds default limit none h k b = (h, k)
positive-bounds default limit (some value) h k b = ground arith

-- Whatever the environment holds, the size is positive and a `usize`.
pub batch_config_from_env-bounds :
    (env : Env)
    → let size = (batch_config_from_env env).max_batch_size in (0 < size) × (size ≤ u64_max)
unfolding batch_config_from_env
batch_config_from_env-bounds env =
    positive-bounds 8 u64_max (parsed u64_max (env (lit "GATEWAY_BATCH_MAX_SIZE"))) (omega arith)
      (omega arith)
      (unwrap_or-parsed-le u64_max 0 (env (lit "GATEWAY_BATCH_MAX_SIZE")) (omega arith))

All-map :
    {A : Type 0} {P Q : A → Type 0} (xs : List A) → ((x : A) → P x → Q x) → All P xs → All Q xs
All-map [] f v = v
All-map (x ∷ xs) f (h, v) = (f x h, All-map xs f v)

-- Whatever the environment holds, the worker that it configures executes batches of at most
-- `max_batch_size` requests, a number between 1 and the largest `usize`, given as many rounds as there
-- are signals and one more.
pub run_batch_worker-bounded :
    {R : Type 0} (env : Env) (fuel : ℕ) (signals : List (Signal R))
    → length signals < fuel
    → let config = batch_config_from_env env in
      (0 < config.max_batch_size)
      × (config.max_batch_size ≤ u64_max)
      × ((batches : List (List (BatchItem R))) × (run_batch_worker fuel config [] signals
            ≡ some batches)
          × All (λ batch. length batch ≤ config.max_batch_size) batches)
run_batch_worker-bounded {R} env fuel signals h =
    let config = batch_config_from_env env in
    let (positive_size, bounded) = batch_config_from_env-bounds env in
    let s = run_batch_worker-Served fuel config [] signals (omega arith) in
    (
      positive_size,
      bounded,
      (
        s.batches,
        s.result,
        All-map s.batches (λ batch v. omega (arith, v.size, positive_size)) s.batched,
      ),
    )
