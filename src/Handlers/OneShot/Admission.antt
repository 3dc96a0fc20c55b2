-- ===== src/Handlers/OneShot/Admission.antt =====
-- The requests that src/handlers.rs admits, for an answer that is not streamed.
use rust_llm_inference_gatew.Prelude.{
  ℕ, ◌≡◌, refl, ap, ◌∙◌, Bool, false, Option, none, some, List, ok,
}
use rust_llm_inference_gatew.Text.{Text}
use rust_llm_inference_gatew.Models.{BackendChatResponse, NormalizedChatRequest, into_normalized}
use rust_llm_inference_gatew.Auth.{AuthContext, ApiKeyRegistry, authenticate}
use rust_llm_inference_gatew.Limits.Snapshot.{RateLimitSnapshot}
use rust_llm_inference_gatew.Limits.Estimate.{estimate_request_tokens}
use rust_llm_inference_gatew.Limits.Interface.{RateLimiter}
use rust_llm_inference_gatew.Cache.Interface.{Cache}
use rust_llm_inference_gatew.Handlers.OneShot.{
  Now, AppState, Ingress, Accepted, calls_backend, after_lookup, one_shot_completion, accepted,
  after_limiter, after_normalization, after_authentication, process_chat_completions,
}

module _ (L : RateLimiter) (C : Cache) {F : Type 0} (is_header : Text → Text → Bool)
    (format4 : F → Text) (digest : Text → List ℕ) (registry : ApiKeyRegistry) where
  -- The request has a valid key and a valid body, does not ask for a stream, and is within its quotas.
  pub record Admitted (now : Now) (s : AppState L C) (i : Ingress F) : Type 0 where
    pub context : AuthContext
    pub request : NormalizedChatRequest F
    pub snapshot : RateLimitSnapshot
    pub authenticated : authenticate registry i.header ≡ ok context
    pub normalized : into_normalized i.body i.request_uuid context.user_id ≡ ok request
    pub within :
        (L.check_and_consume s.limiter context.api_key context.policy
          (estimate_request_tokens request)
          now.unix).1
        ≡ ok snapshot
    pub one_shot : request.stream ≡ false

  module _ {now : Now} {s : AppState L C} {i : Ingress F} (q : Admitted now s i) where
    abbrev pub accepted_of : Accepted F
    accepted_of =
        accepted L C is_header format4 digest registry now i q.context q.request q.snapshot

    -- The state with the request charged.
    abbrev pub charged_state : AppState L C
    charged_state = record s {
      limiter =
          (L.check_and_consume s.limiter q.context.api_key q.context.policy
            (estimate_request_tokens q.request) now.unix).0;
    }

    pub process-admitted :
        process_chat_completions L C is_header format4 digest registry now s i
        ≡ one_shot_completion L C is_header now charged_state accepted_of
    unfolding process_chat_completions
    process-admitted =
        ap (after_authentication L C is_header format4 digest registry now s i) q.authenticated
        ∙ (unfold after_authentication in
            ap (after_normalization L C is_header format4 digest registry now s i q.context)
              q.normalized)
        ∙ (unfold after_normalization in
            ap
              (after_limiter L C is_header format4 digest registry now charged_state i q.context
                q.request)
              q.within)
        ∙ (unfold after_limiter in simp q.one_shot refl)

  -- A request that has found nothing in the cache has left the limiter alone.
  pub after_lookup-limiter :
      (now : Now) (s : AppState L C) (a b : Accepted F) (cached : Option BackendChatResponse)
      → (after_lookup L C is_header now s a cached).1 ≡ calls_backend b
      → (after_lookup L C is_header now s a cached).0.limiter ≡ s.limiter
  unfolding after_lookup
  after_lookup-limiter now s a b (some cached) h = absurd (cc)
  after_lookup-limiter now s a b none h = refl
