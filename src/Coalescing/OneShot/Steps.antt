-- ===== src/Coalescing/OneShot/Steps.antt =====
-- The steps of `execute_or_join` of src/coalescing.rs, by what the map holds.
use rust_llm_inference_gatew.Prelude.{
  ℕ, ◌≡◌, refl, ap, none, some, List, [], ◌∷◌, ◌++◌, map, Result,
}
use rust_llm_inference_gatew.Text.{Text}
use rust_llm_inference_gatew.HashMap.{get, insert}
use rust_llm_inference_gatew.Backend.{BackendError}
use rust_llm_inference_gatew.Models.{BackendChatResponse}
use rust_llm_inference_gatew.Coalescing.OneShot.{
  InflightCoalescer, leader, joined, join, enter, complete, follower_result, waiters_of,
}

-- The coalescer with other waiters for a key.
abbrev pub with_waiters : InflightCoalescer → Text → List ℕ → InflightCoalescer
with_waiters c key waiters = record c { inflight = insert c.inflight key waiters }

module _ (c : InflightCoalescer) (key : Text) where
  pub enter_free :
      (caller : ℕ)
      → get c.inflight key ≡ none
      → enter c key caller ≡ (with_waiters c key [], leader)
  unfolding enter join
  enter_free caller free = ap (join c key caller) free

  pub enter_held :
      (caller : ℕ) (waiters : List ℕ)
      → get c.inflight key ≡ some waiters
      → enter c key caller ≡ (with_waiters c key (waiters ++ caller ∷ []), joined)
  unfolding enter join
  enter_held caller waiters held = ap (join c key caller) held

  pub complete_held :
      (result : Result BackendChatResponse BackendError) (waiters : List ℕ)
      → get c.inflight key ≡ some waiters
      → (complete c key result).sent
        ≡ c.sent ++ map (λ waiter. (waiter, follower_result result)) waiters
  unfolding complete waiters_of
  complete_held result waiters held = rw (held, waiters_of) refl
