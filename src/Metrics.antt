-- ===== src/Metrics.antt =====
-- src/metrics.rs: what the gateway counts, over any prometheus registry. A metric is known by its name,
-- and one of its series by its label values.
pub mod Registry
use rust_llm_inference_gatew.Prelude.{ℕ, Bool, List, [], ◌∷◌, length, ◌≡◌, refl, if◌then◌else◌}
use rust_llm_inference_gatew.Prelude.Int.{ℤ, pos, negsuc}
use rust_llm_inference_gatew.Text.{Text, lit}
use rust_llm_inference_gatew.Text.Decimal.{to_decimal}
use rust_llm_inference_gatew.Models.{Usage}

-- `counter` and `gauge` read; `inc_by`, `add` and `observe` are the calls of the gateway.
pub record Prometheus : Type 1 where
  pub State : Type 0
  pub counter : State → Text → List Text → ℕ
  pub gauge : State → Text → ℤ
  pub inc_by : State → Text → List Text → ℕ → State
  pub add : State → Text → ℤ → State
  pub observe : State → Text → List Text → ℕ → State

pub stream_label : Bool → Text
stream_label stream = if stream then lit "true" else lit "false"

-- The label values of `request_total`.
pub request_labels : Text → Text → Bool → ℕ → List Text
unfolding stream_label
request_labels path method stream status =
    path ∷ method ∷ to_decimal status ∷ stream_label stream ∷ []

pub length-request_labels :
    (path method : Text) (stream : Bool) (status : ℕ)
    → length (request_labels path method stream status) ≡ 4
unfolding request_labels
length-request_labels path method stream status = refl

module _ (P : Prometheus) where
  -- The duration is in nanoseconds.
  unfoldable pub observe_request : P.State → Text → Text → Bool → ℕ → ℕ → P.State
  unfolding request_labels stream_label
  observe_request s path method stream status duration =
      P.observe
        (P.inc_by s (lit "gateway_http_requests_total") (request_labels path method stream status)
          1)
        (lit "gateway_http_request_duration_seconds") (path ∷ method ∷ stream_label stream ∷ [])
        duration

  unfoldable pub observe_backend_error : P.State → Text → P.State
  observe_backend_error s stage = P.inc_by s (lit "gateway_backend_errors_total") (stage ∷ []) 1

  unfoldable pub observe_usage : P.State → Usage → P.State
  observe_usage s usage =
      P.inc_by
        (P.inc_by (P.inc_by s (lit "gateway_tokens_total") (lit "prompt" ∷ []) usage.prompt_tokens)
          (lit "gateway_tokens_total") (lit "completion" ∷ []) usage.completion_tokens)
        (lit "gateway_tokens_total") (lit "total" ∷ []) usage.total_tokens

  -- `inflight_guard`, and the `drop` of the guard.
  unfoldable pub inflight_guard : P.State → P.State
  inflight_guard s = P.add s (lit "gateway_inflight_requests") (pos 1)

  unfoldable pub drop_guard : P.State → P.State
  drop_guard s = P.add s (lit "gateway_inflight_requests") (negsuc 0)
