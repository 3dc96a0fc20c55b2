-- ===== src/Batcher/Tests.antt =====
-- A run of the worker of src/batcher.rs: two classes, batches of at most two.
use rust_llm_inference_gatew.Prelude.{
  ℕ, ◌<◌, ◌≤◌, u64_max, length, if◌then◌else◌, true, none, some, List, [], ◌∷◌, ◌≡◌, refl, arith,
  All,
}
use rust_llm_inference_gatew.Text.{lit, text_eq}
use rust_llm_inference_gatew.Env.{Env}
use rust_llm_inference_gatew.Batcher.Config.{batch_config_from_env}
use rust_llm_inference_gatew.Batcher.Config.Bounds.{run_batch_worker-bounded}
use rust_llm_inference_gatew.Batcher.{
  BatchConfig, BatchClass, BatchItem, Signal, arrives, expires, run_batch_worker, class_eq,
  take_class,
}
use rust_llm_inference_gatew.Batcher.Conservation.Worker.Termination.{run_batch_worker-terminates}

abbrev class_named : ℕ → BatchClass
class_named c = record { model = c ∷ []; max_tokens = none; temperature_repr = []; top_p_repr = [] }

abbrev item : ℕ → ℕ → BatchItem ℕ
item c n = record { class = class_named c; request = n; response_tx = n }

abbrev config : BatchConfig
config = record { enabled = true; max_batch_size = 2; max_wait = 10000000 }

abbrev signals : List (Signal ℕ)
signals =
    arrives (item 97 1)
    ∷ arrives (item 98 2)
    ∷ arrives (item 97 3)
    ∷ arrives (item 98 4)
    ∷ expires
    ∷ arrives (item 97 5)
    ∷ []

batches_by_class :
    run_batch_worker 9 config [] signals
    ≡ some ((item 97 1 ∷ item 97 3 ∷ []) ∷ (item 98 2 ∷ item 98 4 ∷ []) ∷ (item 97 5 ∷ []) ∷ [])
unfolding run_batch_worker take_class class_eq text_eq
batches_by_class = refl

abbrev env : Env
env name = if text_eq name (lit "GATEWAY_BATCH_MAX_SIZE") then some (lit "2") else none

run_batch_worker-bounded_example :
    let config_2 = batch_config_from_env env in
    (0 < config_2.max_batch_size)
    × (config_2.max_batch_size ≤ u64_max)
    × ((batches : List (List (BatchItem ℕ))) × (run_batch_worker 9 config_2 [] signals
          ≡ some batches)
        × All (λ batch. length batch ≤ config_2.max_batch_size) batches)
run_batch_worker-bounded_example = run_batch_worker-bounded env 9 signals (omega arith)

run_batch_worker-terminates_example :
    (batches : List (List (BatchItem ℕ))) × (run_batch_worker 7 config [] signals ≡ some batches)
    × (run_batch_worker 40 config [] signals ≡ some batches)
run_batch_worker-terminates_example = run_batch_worker-terminates 40 config signals (omega arith)
