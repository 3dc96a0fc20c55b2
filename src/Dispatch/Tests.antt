-- ===== src/Dispatch/Tests.antt =====
-- Two queued requests, of which the first endpoint refuses its own, and three callers who ask for the
-- first of them together.
use rust_llm_inference_gatew.Prelude.{
  ℕ, ◌+◌, ◌*◌, ◌==◌, inr, if◌then◌else◌, ◌∷◌, [], List, some, none, true, ok, err, refl, ◌≡◌, arith,
  inl, Result, All,
}
use mathlib.Core.List.{Perm}
use rust_llm_inference_gatew.Text.{lit}
use rust_llm_inference_gatew.HashMap.{get, empty}
use rust_llm_inference_gatew.Backend.{BackendError, timeout}
use rust_llm_inference_gatew.Models.{BackendChatResponse}
use rust_llm_inference_gatew.Coalescing.OneShot.{
  InflightCoalescer, leader, joined, follower_result, complete,
}
use rust_llm_inference_gatew.Router.{BackendRouter, Answer, new_router}
use rust_llm_inference_gatew.Batcher.{BatchConfig, BatchClass, BatchItem, Signal, arrives, expires}
use rust_llm_inference_gatew.Batcher.Conservation.{items, flatten}
use rust_llm_inference_gatew.Batcher.Conservation.Worker.{IsBatch}
use rust_llm_inference_gatew.Dispatch.{Sent, dispatch}
use rust_llm_inference_gatew.Dispatch.Answered.{AreServed, dispatch-answers}
use rust_llm_inference_gatew.Dispatch.Crowd.{enter_all, reply_to, crowd-answered}

abbrev class : BatchClass
class = record { model = 109 ∷ []; max_tokens = some 4; temperature_repr = []; top_p_repr = [] }

-- The requests are numbers.
abbrev item : ℕ → BatchItem ℕ
item tx = record { class = class; request = tx; response_tx = tx }

abbrev signals : List (Signal ℕ)
signals = arrives (item 7) ∷ arrives (item 8) ∷ expires ∷ []

abbrev config : BatchConfig
config = record { enabled = true; max_batch_size = 4; max_wait = 10 }

abbrev response : ℕ → BackendChatResponse
response n = record {
  content = n ∷ [];
  finish_reason = 115 ∷ [];
  usage = record { prompt_tokens = 1; completion_tokens = 1; total_tokens = 2 };
}

-- The first endpoint times out, and the second answers.
abbrev answers : ℕ → ℕ → ℕ → Answer BackendChatResponse
answers call request endpoint = record {
  result = if endpoint == 0 then err (timeout []) else ok (response request);
  at = 100 * call + 50;
}

abbrev now : ℕ → ℕ
now call = 100 * call

abbrev router : BackendRouter
router = new_router 2

dispatch-answers_example :
    (batches : List (List (BatchItem ℕ))) × (sent : List Sent) × (after : BackendRouter) × (dispatch
        now answers 4 config router signals
      ≡ some (after, sent))
    × Perm (flatten batches) (items signals)
    × All (IsBatch config) batches
    × AreServed now answers router 0 (flatten batches) sent after
dispatch-answers_example = dispatch-answers now answers 4 config router signals (omega arith)

abbrev coalescer : InflightCoalescer
coalescer = record { inflight = empty; sent = [] }

crowd-answered_example :
    let entered = enter_all coalescer (lit "k") (1 ∷ 2 ∷ 3 ∷ []) in
    (entered.1 ≡ leader ∷ joined ∷ joined ∷ [])
    × ((batches : List (List (BatchItem ℕ))) × (after : BackendRouter) × (sent : List Sent)
        × (result : Result BackendChatResponse BackendError) × (dispatch now answers 4 config router
              signals
            ≡ some (after, sent))
        × Perm (flatten batches) (items signals)
        × AreServed now answers router 0 (flatten batches) sent after
        × (reply_to 8 sent ≡ some result)
        × ((complete entered.0 (lit "k") result).sent
            ≡ (2, follower_result result) ∷ (3, follower_result result) ∷ [])
        × (get (complete entered.0 (lit "k") result).inflight (lit "k") ≡ none))
unfolding get
crowd-answered_example =
    crowd-answered now answers coalescer (lit "k") 1 (2 ∷ 3 ∷ []) 4 config router signals 8 refl
      (omega arith) (inr (inl refl))
