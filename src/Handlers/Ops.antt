-- ===== src/Handlers/Ops.antt =====
-- The routes of src/handlers.rs for operators: `healthz`, and `metrics` over any prometheus library.
use rust_llm_inference_gatew.Prelude.{Bool, Result, ok, err, ◌++◌}
use rust_llm_inference_gatew.Text.{Text, lit}
use rust_llm_inference_gatew.HashMap.{empty, insert}
use rust_llm_inference_gatew.Errors.{OpenAiError, Response, internal, into_response}
use rust_llm_inference_gatew.Metrics.Registry.{Library, AppMetrics, render}

pub healthz : Text
healthz = lit "ok"

pub data MetricsBody : Type 0 where
  exposition : Text → MetricsBody
  failure : OpenAiError → MetricsBody

module _ (is_header : Text → Text → Bool) where
  pub rendered : Result Text Text → Response MetricsBody
  rendered (ok body) = record {
    status = 200;
    headers = insert empty (lit "content-type") (lit "text/plain; version=0.0.4; charset=utf-8");
    body = exposition body;
  }
  rendered (err error) =
      let response = into_response is_header (internal (lit "metrics render failed: " ++ error)) in
      record { status = response.status; headers = response.headers; body = failure response.body }

  pub metrics : (L : Library) → AppMetrics L → Response MetricsBody
  unfolding rendered
  metrics L m = rendered (render L m)
