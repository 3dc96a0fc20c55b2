-- ===== src/Metrics/Registry.antt =====
-- `AppMetrics::new` and `render` of src/metrics.rs, over any prometheus library.
mod Registered
mod Tests
use rust_llm_inference_gatew.Prelude.{Result, ok, err, Option, none, some, List, [], ◌∷◌, ◌>>=◌}
use rust_llm_inference_gatew.Text.{Text, lit}

-- The constructors of the library and the calls of its registry; an error is its text. `gather` and
-- `encode` with the check of UTF-8 make the text of a registry.
pub record Library : Type 1 where
  pub Metric : Type 0
  pub Registry : Type 0
  pub new_registry : Registry
  pub int_counter_vec : Text → Text → List Text → Result Metric Text
  pub histogram_vec : Text → Text → List Text → Result Metric Text
  pub int_gauge : Text → Text → Result Metric Text
  pub register : Registry → Metric → Result Registry Text
  pub encode : Registry → Result Text Text

-- What `AppMetrics::new` asks for: a name, a help text, and the labels of its series.
pub record Opts : Type 0 where
  pub name : Text
  pub help : Text
  pub labels : List Text

abbrev pub request_total_opts : Opts
request_total_opts = record {
  name = lit "gateway_http_requests_total";
  help = lit "Total HTTP requests processed by gateway";
  labels = lit "path" ∷ lit "method" ∷ lit "status" ∷ lit "stream" ∷ [];
}

abbrev pub request_duration_opts : Opts
request_duration_opts = record {
  name = lit "gateway_http_request_duration_seconds";
  help = lit "HTTP request latency in seconds";
  labels = lit "path" ∷ lit "method" ∷ lit "stream" ∷ [];
}

abbrev pub inflight_opts : Opts
inflight_opts = record {
  name = lit "gateway_inflight_requests";
  help = lit "Current in-flight requests at gateway";
  labels = [];
}

abbrev pub backend_errors_opts : Opts
backend_errors_opts = record {
  name = lit "gateway_backend_errors_total";
  help = lit "Total backend-related errors by stage";
  labels = lit "stage" ∷ [];
}

abbrev pub tokens_opts : Opts
tokens_opts = record {
  name = lit "gateway_tokens_total";
  help = lit "Token accounting aggregated by type";
  labels = lit "kind" ∷ [];
}

module _ (L : Library) where
  pub record AppMetrics : Type 0 where
    pub registry : L.Registry
    pub request_total : L.Metric
    pub request_duration_seconds : L.Metric
    pub inflight_requests : L.Metric
    pub backend_errors_total : L.Metric
    pub tokens_total : L.Metric

  counter_of : Opts → Result L.Metric Text
  counter_of o = L.int_counter_vec o.name o.help o.labels

  -- An error is a panic at the `expect` that meets it.
  pub new_app_metrics : Result AppMetrics Text
  unfolding counter_of
  new_app_metrics = do
    request_total ← counter_of request_total_opts
    request_duration_seconds ←
        L.histogram_vec request_duration_opts.name request_duration_opts.help
          request_duration_opts.labels
    inflight_requests ← L.int_gauge inflight_opts.name inflight_opts.help
    backend_errors_total ← counter_of backend_errors_opts
    tokens_total ← counter_of tokens_opts
    r₁ ← L.register L.new_registry request_total
    r₂ ← L.register r₁ request_duration_seconds
    r₃ ← L.register r₂ inflight_requests
    r₄ ← L.register r₃ backend_errors_total
    r₅ ← L.register r₄ tokens_total
    ok (record {
      registry = r₅;
      request_total = request_total;
      request_duration_seconds = request_duration_seconds;
      inflight_requests = inflight_requests;
      backend_errors_total = backend_errors_total;
      tokens_total = tokens_total;
    })

  pub render : AppMetrics → Result Text Text
  render metrics = L.encode metrics.registry
