-- ===== src/Handlers/OneShot/Charge.antt =====
-- What a one-shot request of src/handlers.rs costs its key, with the in-memory limiter.
use rust_llm_inference_gatew.Prelude.{ℕ, ◌+◌, ◌≤◌, ◌≡◌, sym, ap, ◌∙◌, Bool, some, List, u64_max}
use rust_llm_inference_gatew.Text.{Text}
use rust_llm_inference_gatew.HashMap.{get}
use rust_llm_inference_gatew.Models.{BackendChatResponse}
use rust_llm_inference_gatew.Auth.{ApiKeyRegistry}
use rust_llm_inference_gatew.Limits.Snapshot.{current_minute_start, current_day_start}
use rust_llm_inference_gatew.Limits.Quota.{IsBounded, Fits, current_usage, charge}
use rust_llm_inference_gatew.Limits.Reconcile.{consume-reconcile}
use rust_llm_inference_gatew.Limits.Estimate.{estimate_request_tokens}
use rust_llm_inference_gatew.Limits.Interface.{in_memory}
use rust_llm_inference_gatew.Cache.Interface.{Cache}
use rust_llm_inference_gatew.Handlers.OneShot.{
  Now, AppState, Ingress, calls_backend, one_shot_completion, settle, accepted,
  process_chat_completions,
}
use rust_llm_inference_gatew.Handlers.OneShot.Admission.{
  Admitted, accepted_of, charged_state, process-admitted, after_lookup-limiter,
}

module _ (C : Cache) {F : Type 0} (is_header : Text → Text → Bool) (format4 : F → Text)
    (digest : Text → List ℕ) (registry : ApiKeyRegistry) where
  module _ {now : Now} {s : AppState in_memory C} {i : Ingress F}
      (q : Admitted in_memory C is_header format4 digest registry now s i) where
    abbrev key : Text
    key = q.context.api_key

    process-limiter :
        (process_chat_completions in_memory C is_header format4 digest registry now s i).1
          ≡ calls_backend (accepted_of in_memory C is_header format4 digest registry q)
        → (process_chat_completions in_memory C is_header format4 digest registry now s i).0.limiter
          ≡ (charged_state in_memory C is_header format4 digest registry q).limiter
    unfolding one_shot_completion
    process-limiter leads =
        ap (λ r. r.0.limiter) admitted
        ∙ after_lookup-limiter in_memory C is_header format4 digest registry now _
            (accepted_of in_memory C is_header format4 digest registry q)
            (accepted_of in_memory C is_header format4 digest registry q) _
            (sym (ap (λ r. r.1) admitted) ∙ leads)
      where
        admitted :
            process_chat_completions in_memory C is_header format4 digest registry now s i
            ≡ one_shot_completion in_memory C is_header now
                (charged_state in_memory C is_header format4 digest registry q)
                (accepted_of in_memory C is_header format4 digest registry q)
        admitted = process-admitted in_memory C is_header format4 digest registry q

    -- With the in-memory limiter, and limits below the largest values of their types, a request that
    -- is within its quotas and calls the backend costs its key one request and the tokens that the
    -- backend reports, whatever was estimated. That is so if the charge is corrected within the minute
    -- and the day, while the entry of the key is as the request left it, whatever else has happened to
    -- the state, and if no counter would pass the largest `u64`.
    pub process-charges :
        (later : Now) (t : AppState in_memory C) (response : BackendChatResponse)
        → IsBounded q.context.policy
        → Fits q.context.policy
            (estimate_request_tokens q.request)
            (current_usage s.limiter key now.unix)
        → current_minute_start later.unix ≡ current_minute_start now.unix
        → current_day_start later.unix ≡ current_day_start now.unix
        → (current_usage s.limiter key now.unix).tokens_in_minute + response.usage.total_tokens
          ≤ u64_max
        → (current_usage s.limiter key now.unix).tokens_in_day + response.usage.total_tokens
          ≤ u64_max
        → (process_chat_completions in_memory C is_header format4 digest registry now s i).1
          ≡ calls_backend (accepted_of in_memory C is_header format4 digest registry q)
        → get t.limiter key
          ≡ get
              (process_chat_completions in_memory C is_header format4 digest registry now s
                i).0.limiter
              key
        → get
            (settle in_memory C is_header later t
              (accepted_of in_memory C is_header format4 digest registry q)
              response.usage).limiter
            key
          ≡ some (charge response.usage.total_tokens (current_usage s.limiter key now.unix))
    unfolding settle accepted estimate_request_tokens
    process-charges later t response b f sm sd hm hd leads kept =
        consume-reconcile s.limiter t.limiter key q.context.policy
          (estimate_request_tokens q.request) response.usage.total_tokens now.unix later.unix
          (kept ∙ ap (λ m. get m key) (process-limiter leads)) b f sm sd hm hd
