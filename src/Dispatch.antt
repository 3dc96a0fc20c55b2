-- ===== src/Dispatch.antt =====
-- The worker of src/batcher.rs with the router of src/router.rs as its backend: the requests of a batch
-- are executed one after the other, each through a selection of an endpoint.
pub mod Answered
pub mod Crowd
mod Tests
use rust_llm_inference_gatew.Prelude.{
  ℕ, suc, ◌+◌, length, Option, none, some, List, [], ◌∷◌, ◌++◌, Result,
}
use rust_llm_inference_gatew.Backend.{BackendError}
use rust_llm_inference_gatew.Models.{BackendChatResponse}
use rust_llm_inference_gatew.Router.{BackendRouter, Answer, execute_chat}
use rust_llm_inference_gatew.Batcher.{BatchConfig, BatchItem, Signal, run_batch_worker}

-- What is sent, and on which channel.
abbrev pub Sent : Type 0
Sent = ℕ × Result BackendChatResponse BackendError

-- The calls of the router are numbered. `now` says when one is made, and `answers` what each endpoint's
-- backend would return to it for a request, and when.
module _ {R : Type 0} (now : ℕ → ℕ) (answers : ℕ → R → ℕ → Answer BackendChatResponse) where
  -- The loop over a batch, from a call on.
  pub execute_batch : BackendRouter → ℕ → List (BatchItem R) → BackendRouter × List Sent
  execute_batch r call [] = (r, [])
  execute_batch r call (item ∷ batch) =
      let (r', result) = execute_chat r (now call) (answers call item.request) in
      let (after, sent) = execute_batch r' (suc call) batch in
      (after, (item.response_tx, result) ∷ sent)

  pub execute_batches : BackendRouter → ℕ → List (List (BatchItem R)) → BackendRouter × List Sent
  unfolding execute_batch
  execute_batches r call [] = (r, [])
  execute_batches r call (batch ∷ batches) =
      let (r', sent) = execute_batch r call batch in
      let (after, later) = execute_batches r' (call + length batch) batches in
      (after, sent ++ later)

  executed : BackendRouter → Option (List (List (BatchItem R))) → Option (BackendRouter × List Sent)
  unfolding execute_batches
  executed r none = none
  executed r (some batches) = some (execute_batches r 0 batches)

  -- The whole run of the worker over its signals: what becomes of the router, and what is sent.
  pub dispatch :
      ℕ → BatchConfig → BackendRouter → List (Signal R) → Option (BackendRouter × List Sent)
  unfolding executed
  dispatch fuel config r signals = executed r (run_batch_worker fuel config [] signals)
