-- ===== src/Handlers/OneShot.antt =====
-- `process_chat_completions` and `one_shot_completion` of src/handlers.rs, over any rate limiter and
-- any cache. The handler is cut at the awaits that follow its lookup: it begins, up to the wait for the
-- backend or for the leader; it resumes with what came, a leader freeing its key; it corrects the
-- limiter's charge; and it stores the response. Other requests may come between these steps. The way in,
-- with its calls of the limiter and of the cache, is one step here.
pub mod Refusals
pub mod Admission
pub mod Repeats
pub mod Shared
pub mod Charge
mod Fixture
mod Tests
use rust_llm_inference_gatew.Prelude.{
  ℕ, Bool, Option, none, some, List, [], ◌∷◌, ◌++◌, Result, ok, err, if◌then◌else◌,
}
use rust_llm_inference_gatew.Text.{Text, lit}
use rust_llm_inference_gatew.HashMap.{HashMap, empty}
use rust_llm_inference_gatew.Backend.{BackendError, error_text}
use rust_llm_inference_gatew.Models.{
  Usage, BackendChatResponse, ChatCompletionsRequest, NormalizedChatRequest,
  ChatCompletionsResponse, into_normalized, from_backend,
}
use rust_llm_inference_gatew.Errors.{
  AppError, bad_request, rate_limited, backend, OpenAiError, Response, apply_header, apply_headers,
  into_response,
}
use rust_llm_inference_gatew.Auth.{AuthContext, ApiKeyRegistry, authenticate}
use rust_llm_inference_gatew.Limits.Snapshot.{
  RateLimitSnapshot, RateLimitError, to_header_pairs, error_message, error_snapshot,
}
use rust_llm_inference_gatew.Limits.Estimate.{estimate_request_tokens}
use rust_llm_inference_gatew.Limits.Interface.{RateLimiter}
use rust_llm_inference_gatew.Cache.Interface.{Cache}
use rust_llm_inference_gatew.Scheduler.{fingerprint_for}
use rust_llm_inference_gatew.Coalescing.OneShot.{
  InflightCoalescer, CoalesceOutcome, leader, joined, Reply, enter, complete, leader_outcome,
  joined_outcome,
}

-- The clocks: seconds since the epoch, and a monotonic clock in nanoseconds.
pub record Now : Type 0 where
  pub unix : ℕ
  pub instant : ℕ

-- What `observe_usage` and `observe_backend_error` are called with.
pub data Observation : Type 0 where
  usage_observed : Usage → Observation
  backend_error : Text → Observation

-- A request as the server hands it over: its caller, the value of `x-api-key`, the body, and the two
-- UUIDs that the handler draws.
pub record Ingress (F : Type 0) : Type 0 where
  pub caller : ℕ
  pub header : Option Text
  pub body : ChatCompletionsRequest F
  pub request_uuid : Text
  pub response_uuid : Text

-- What `one_shot_completion` and `stream_completion` are called with.
pub record Accepted (F : Type 0) : Type 0 where
  pub caller : ℕ
  pub request : NormalizedChatRequest F
  pub api_key : Text
  pub fingerprint : Text
  pub estimated_tokens : ℕ
  pub rate_snapshot : RateLimitSnapshot
  pub response_id : Text
  pub created : ℕ

pub data Progress (F : Type 0) : Type 0 where
  replies : Result (Response ChatCompletionsResponse) AppError → Progress F
  calls_backend : Accepted F → Progress F
  waits_for_leader : Accepted F → Progress F
  streams : Accepted F → Progress F

module _ (L : RateLimiter) (C : Cache) where
  -- `AppState`, as far as these handlers change it.
  pub record AppState : Type 0 where
    pub limiter : L.State
    pub cache : C.State
    pub coalescer : InflightCoalescer
    pub observed : List Observation

  -- What `execute_or_join` returned: an error ends the request, and a response goes on to `settle`.
  pub take_result :
      AppState
      → Result (BackendChatResponse × CoalesceOutcome) BackendError
      → AppState × Result BackendChatResponse AppError
  take_result s (err error) = (
    record s { observed = s.observed ++ backend_error (lit "one_shot") ∷ [] },
    err (backend (error_text error)),
  )
  take_result s (ok (response, outcome)) = (s, ok response)

  -- The leader resumes with what the backend returned: its key is free, and the followers are sent
  -- the result.
  pub resume_leader :
      AppState
      → Text
      → Result BackendChatResponse BackendError
      → AppState × Result BackendChatResponse AppError
  unfolding take_result complete leader_outcome
  resume_leader s fingerprint result =
      take_result (record s { coalescer = complete s.coalescer fingerprint result })
        (leader_outcome result)

  -- A follower resumes with what its channel yields.
  pub resume_follower : AppState → Option Reply → AppState × Result BackendChatResponse AppError
  unfolding take_result joined_outcome
  resume_follower s reply = take_result s (joined_outcome reply)

  module _ {F : Type 0} (is_header : Text → Text → Bool) where
    -- The `x-cache` header is the first argument.
    pub completion : Text → Accepted F → BackendChatResponse → Response ChatCompletionsResponse
    completion x_cache a response = record {
      status = 200;
      headers =
          apply_header is_header (apply_headers is_header empty (to_header_pairs a.rate_snapshot))
            (lit "x-cache") x_cache;
      body = from_backend a.response_id a.created a.request.model response;
    }

    pub settle : Now → AppState → Accepted F → Usage → AppState
    settle now s a usage = record s {
      limiter = L.reconcile s.limiter a.api_key a.estimated_tokens usage.total_tokens now.unix;
      observed = s.observed ++ usage_observed usage ∷ [];
    }

    pub after_lookup :
        Now → AppState → Accepted F → Option BackendChatResponse → AppState × Progress F
    unfolding settle completion
    after_lookup now s a (some cached) =
        (settle now s a cached.usage, replies (ok (completion (lit "hit") a cached)))
    after_lookup now s a none =
        let (coalescer, outcome) = enter s.coalescer a.fingerprint a.caller in
        (
          record s { coalescer = coalescer },
          elim outcome [ leader ↦ calls_backend a | joined ↦ waits_for_leader a ],
        )

    -- `one_shot_completion`, up to its await.
    pub one_shot_completion : Now → AppState → Accepted F → AppState × Progress F
    unfolding after_lookup
    one_shot_completion now s a =
        let (cache, cached) = C.get now.instant s.cache a.fingerprint in
        after_lookup now (record s { cache = cache }) a cached

    -- The end of `one_shot_completion`, after `settle`.
    pub store_response :
        Now
        → AppState
        → Accepted F
        → BackendChatResponse
        → AppState × Result (Response ChatCompletionsResponse) AppError
    unfolding completion
    store_response now s a response = (
      record s { cache = C.set now.instant s.cache a.fingerprint response },
      ok (completion (lit "miss") a response),
    )

    module _ (format4 : F → Text) (digest : Text → List ℕ) (registry : ApiKeyRegistry) where
      pub accepted :
          Now → Ingress F → AuthContext → NormalizedChatRequest F → RateLimitSnapshot → Accepted F
      accepted now i context request snapshot = record {
        caller = i.caller;
        request = request;
        api_key = context.api_key;
        fingerprint = fingerprint_for format4 digest request;
        estimated_tokens = estimate_request_tokens request;
        rate_snapshot = snapshot;
        response_id = lit "chatcmpl-" ++ i.response_uuid;
        created = now.unix;
      }

      pub after_limiter :
          Now
          → AppState
          → Ingress F
          → AuthContext
          → NormalizedChatRequest F
          → Result RateLimitSnapshot RateLimitError
          → AppState × Progress F
      unfolding accepted one_shot_completion
      after_limiter now s i context request (err e) =
          (s, replies (err (rate_limited (error_message e) (to_header_pairs (error_snapshot e)))))
      after_limiter now s i context request (ok snapshot) =
          if request.stream
          then (s, streams (accepted now i context request snapshot))
          else one_shot_completion now s (accepted now i context request snapshot)

      pub after_normalization :
          Now
          → AppState
          → Ingress F
          → AuthContext
          → Result (NormalizedChatRequest F) Text
          → AppState × Progress F
      unfolding after_limiter
      after_normalization now s i context (err message) = (s, replies (err (bad_request message)))
      after_normalization now s i context (ok request) =
          let (limiter, result) =
            L.check_and_consume s.limiter context.api_key context.policy
              (estimate_request_tokens request) now.unix in
          after_limiter now (record s { limiter = limiter }) i context request result

      pub after_authentication :
          Now → AppState → Ingress F → Result AuthContext AppError → AppState × Progress F
      unfolding after_normalization
      after_authentication now s i (err e) = (s, replies (err e))
      after_authentication now s i (ok context) =
          after_normalization now s i context
            (into_normalized i.body i.request_uuid context.user_id)

      -- `process_chat_completions`, up to the await of `one_shot_completion`.
      pub process_chat_completions : Now → AppState → Ingress F → AppState × Progress F
      unfolding after_authentication
      process_chat_completions now s i =
          after_authentication now s i (authenticate registry i.header)
