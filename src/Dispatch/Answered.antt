-- ===== src/Dispatch/Answered.antt =====
-- Every request that src/batcher.rs queues is dispatched once by src/router.rs.
use mathlib.Core.List.{Perm}
use rust_llm_inference_gatew.Prelude.{
  ℕ, suc, ◌+◌, ◌<◌, ◌≡◌, refl, ap, subst, arith, some, List, [], ◌∷◌, ◌++◌, length, All,
}
use rust_llm_inference_gatew.Models.{BackendChatResponse}
use rust_llm_inference_gatew.Router.{BackendRouter, Answer, execute_chat}
use rust_llm_inference_gatew.Router.Requests.{IsServed, execute_chat-IsServed}
use rust_llm_inference_gatew.Batcher.{BatchConfig, BatchItem, Signal}
use rust_llm_inference_gatew.Batcher.Conservation.{items, flatten}
use rust_llm_inference_gatew.Batcher.Conservation.Worker.{IsBatch, run_batch_worker-Served}
use rust_llm_inference_gatew.Dispatch.{Sent, execute_batch, execute_batches, executed, dispatch}

module _ {R : Type 0} (now : ℕ → ℕ) (answers : ℕ → R → ℕ → Answer BackendChatResponse) where
  -- The items are served one after the other, from a call on, each by the router as the one before
  -- left it and with the answers to its own request, and its caller is sent what comes of that.
  abbrev pub AreServed : BackendRouter → ℕ → List (BatchItem R) → List Sent → BackendRouter → Type 0
  AreServed r call [] [] after = after ≡ r
  AreServed r call [] (s ∷ sent) after = ⊥
  AreServed r call (item ∷ batch) [] after = ⊥
  AreServed r call (item ∷ batch) (s ∷ sent) after =
      (s.0 ≡ item.response_tx)
      × ((next : BackendRouter) × IsServed r (now call) (answers call item.request) s.1 next
          × AreServed next (suc call) batch sent after)

  AreServed-append :
      (r : BackendRouter) (call : ℕ) (batch later : List (BatchItem R)) (sent replies : List Sent)
      (middle after : BackendRouter)
      → AreServed r call batch sent middle
      → AreServed middle (call + length batch) later replies after
      → AreServed r call (batch ++ later) (sent ++ replies) after
  AreServed-append r call [] later [] replies middle after a b =
      subst (λ n. AreServed r n later replies after) (omega arith)
        (subst (λ (m : BackendRouter). AreServed m (call + 0) later replies after) a b)
  AreServed-append r call [] later (s ∷ sent) replies middle after a b = absurd a
  AreServed-append r call (item ∷ batch) later [] replies middle after a b = absurd a
  AreServed-append r call (item ∷ batch) later (s ∷ sent) replies middle after a b = (
    a.0,
    (
      a.1.0,
      a.1.1,
      AreServed-append a.1.0 (suc call) batch later sent replies middle after a.1.2
          (subst (λ n. AreServed middle n later replies after) (omega arith) b),
    ),
  )

  execute_batch-Served :
      (r : BackendRouter) (call : ℕ) (batch : List (BatchItem R))
      → let done = execute_batch now answers r call batch in AreServed r call batch done.1 done.0
  unfolding execute_batch
  execute_batch-Served r call [] = refl
  execute_batch-Served r call (item ∷ batch) =
      let next = (execute_chat r (now call) (answers call item.request)).0 in
      (
        refl,
        (
          next,
          execute_chat-IsServed r (now call) (answers call item.request),
          execute_batch-Served next (suc call) batch,
        ),
      )

  execute_batches-Served :
      (r : BackendRouter) (call : ℕ) (batches : List (List (BatchItem R)))
      → let done = execute_batches now answers r call batches in
        AreServed r call (flatten batches) done.1 done.0
  unfolding execute_batches
  execute_batches-Served r call [] = refl
  execute_batches-Served r call (batch ∷ batches) =
      let next = (execute_batch now answers r call batch).0 in
      AreServed-append r call batch (flatten batches) _ _ next _ (execute_batch-Served r call batch)
        (execute_batches-Served next (call + length batch) batches)

  -- Given as many rounds as there are signals, and one more, the worker ends, and then the queued
  -- requests have been put into batches of one class and bounded size, each request into one, and the
  -- requests of the batches have been served one after the other: each by one selection of the router
  -- as the one before left it, its caller being sent what the backend of the endpoint taken answers to
  -- that request, or that all are unhealthy, if the selection takes no endpoint; and the circuit of
  -- the endpoint notes the answer.
  pub dispatch-answers :
      (fuel : ℕ) (config : BatchConfig) (r : BackendRouter) (signals : List (Signal R))
      → length signals < fuel
      → (batches : List (List (BatchItem R))) × (sent : List Sent) × (after : BackendRouter)
        × (dispatch now answers fuel config r signals ≡ some (after, sent))
        × Perm (flatten batches) (items signals)
        × All (IsBatch config) batches
        × AreServed r 0 (flatten batches) sent after
  unfolding dispatch executed
  dispatch-answers fuel config r signals enough =
      let s = run_batch_worker-Served fuel config [] signals (omega arith) in
      (
        s.batches,
        (execute_batches now answers r 0 s.batches).1,
        (execute_batches now answers r 0 s.batches).0,
        ap (executed now answers r) s.result,
        s.kept,
        s.batched,
        execute_batches-Served r 0 s.batches,
      )
