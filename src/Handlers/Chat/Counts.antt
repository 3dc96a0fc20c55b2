-- ===== src/Handlers/Chat/Counts.antt =====
-- What one request of the route of src/handlers.rs leaves in the metrics.
use rust_llm_inference_gatew.Prelude.{
  ℕ, ◌+◌, ◌^◌, ◌<◌, ◌≡◌, refl, ap, ◌∙◌, Bool, false, List, [], ◌∷◌,
}
use rust_llm_inference_gatew.Prelude.Int.{ℤ, pos, negsuc}
use rust_llm_inference_gatew.Text.{Text, lit, text_eq}
use rust_llm_inference_gatew.Errors.{Response}
use rust_llm_inference_gatew.Metrics.{
  Prometheus, request_labels, observe_request, observe_backend_error, observe_usage, inflight_guard,
  drop_guard,
}
use rust_llm_inference_gatew.Handlers.OneShot.{Observation, usage_observed, backend_error}
use rust_llm_inference_gatew.Handlers.Chat.{Body, observe_one, observe_all, chat_completions}

-- The documented behaviour of the registry. A counter wraps around where it would pass `u64`.
record IsPrometheus (P : Prometheus) : Type 0 where
  pub counter-inc_by :
      (s : P.State) (name : Text) (labels : List Text) (k : ℕ)
      → P.counter s name labels + k < 2 ^ 64
      → P.counter (P.inc_by s name labels k) name labels ≡ P.counter s name labels + k
  pub counter-inc_by_other :
      (s : P.State) (name other : Text) (labels series : List Text) (k : ℕ)
      → text_eq name other ≡ false
      → P.counter (P.inc_by s name labels k) other series ≡ P.counter s other series
  pub counter-add :
      (s : P.State) (name other : Text) (z : ℤ) (series : List Text)
      → P.counter (P.add s name z) other series ≡ P.counter s other series
  pub counter-observe :
      (s : P.State) (name other : Text) (labels series : List Text) (d : ℕ)
      → P.counter (P.observe s name labels d) other series ≡ P.counter s other series

module _ (P : Prometheus) (v : IsPrometheus P) where
  abbrev requests : P.State → List Text → ℕ
  requests s labels = P.counter s (lit "gateway_http_requests_total") labels

  tokens-ne : text_eq (lit "gateway_tokens_total") (lit "gateway_http_requests_total") ≡ false
  unfolding text_eq lit
  tokens-ne = refl

  errors-ne :
      text_eq (lit "gateway_backend_errors_total") (lit "gateway_http_requests_total") ≡ false
  unfolding text_eq lit
  errors-ne = refl

  requests-observe_all :
      (s : P.State) (observed : List Observation) (labels : List Text)
      → requests (observe_all P s observed) labels ≡ requests s labels
  unfolding observe_all observe_one
  requests-observe_all s [] labels = refl
  requests-observe_all s (usage_observed usage ∷ os) labels =
      requests-observe_all (observe_usage P s usage) os labels
      ∙ (unfold observe_usage in
          v.counter-inc_by_other _ _ _ _ labels _ tokens-ne
          ∙ v.counter-inc_by_other _ _ _ _ labels _ tokens-ne
          ∙ v.counter-inc_by_other _ _ _ _ labels _ tokens-ne)
  requests-observe_all s (backend_error stage ∷ os) labels =
      requests-observe_all (observe_backend_error P s stage) os labels
      ∙ (unfold observe_backend_error in v.counter-inc_by_other _ _ _ _ labels _ errors-ne)

  -- A request is counted once, under the status of the response that it gets, if its counter does not
  -- wrap.
  chat_completions-counts :
      (s : P.State) (stream : Bool) (observed : List Observation) (response : Response Body)
      (elapsed : ℕ)
      → let labels =
          request_labels (lit "/v1/chat/completions") (lit "POST") stream response.status in
        requests s labels + 1 < 2 ^ 64
        → requests (chat_completions P s stream observed response elapsed).0 labels
          ≡ requests s labels + 1
  unfolding chat_completions observe_request inflight_guard drop_guard
  chat_completions-counts s stream observed response elapsed room =
      let labels =
        request_labels (lit "/v1/chat/completions") (lit "POST") stream response.status in
      let before = observe_all P (inflight_guard P s) observed in
      let same : requests before labels ≡ requests s labels =
        requests-observe_all (inflight_guard P s) observed labels
        ∙ v.counter-add s _ _ (pos 1) labels in
      v.counter-add _ _ _ (negsuc 0) labels
      ∙ v.counter-observe _ _ _ _ labels elapsed
      ∙ v.counter-inc_by before (lit "gateway_http_requests_total") labels 1 (rw same room)
      ∙ ap (λ n. n + 1) same
