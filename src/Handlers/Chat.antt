-- ===== src/Handlers/Chat.antt =====
-- `chat_completions` of src/handlers.rs around `process_chat_completions`, with its metrics.
mod Counts
mod Labels
mod Tests
use rust_llm_inference_gatew.Prelude.{ℕ, Bool, Result, ok, err, List, [], ◌∷◌}
use rust_llm_inference_gatew.Text.{Text, lit}
use rust_llm_inference_gatew.Models.{ChatCompletionsResponse}
use rust_llm_inference_gatew.Errors.{AppError, OpenAiError, Response, into_response}
use rust_llm_inference_gatew.Metrics.{
  Prometheus, observe_request, observe_backend_error, observe_usage, inflight_guard, drop_guard,
}
use rust_llm_inference_gatew.Handlers.OneShot.{Observation, usage_observed, backend_error}

pub data Body : Type 0 where
  completion_body : ChatCompletionsResponse → Body
  error_body : OpenAiError → Body

module _ (is_header : Text → Text → Bool) where
  -- The response of the route.
  pub response_of : Result (Response ChatCompletionsResponse) AppError → Response Body
  response_of (ok response) = record {
    status = response.status;
    headers = response.headers;
    body = completion_body response.body;
  }
  response_of (err error) =
      let response = into_response is_header error in
      record {
        status = response.status;
        headers = response.headers;
        body = error_body response.body;
      }

module _ (P : Prometheus) where
  pub observe_one : P.State → Observation → P.State
  observe_one s (usage_observed usage) = observe_usage P s usage
  observe_one s (backend_error stage) = observe_backend_error P s stage

  pub observe_all : P.State → List Observation → P.State
  unfolding observe_one
  observe_all s [] = s
  observe_all s (o ∷ os) = observe_all (observe_one s o) os

  -- The route, around a request that takes `elapsed` nanoseconds, observes this and replies that.
  pub chat_completions :
      P.State → Bool → List Observation → Response Body → ℕ → P.State × Response Body
  unfolding observe_all
  chat_completions s stream observed response elapsed = (
    drop_guard P (
        observe_request P (observe_all (inflight_guard P s) observed) (lit "/v1/chat/completions")
          (lit "POST") stream response.status elapsed),
    response,
  )
