-- ===== src/Handlers/Chat/Labels.antt =====
-- Every series that the route of src/handlers.rs touches has a value for each label that src/metrics.rs
-- declares.
use rust_llm_inference_gatew.Prelude.{ℕ, ◌≡◌, refl, Bool, List, [], ◌∷◌, length, In, inl, inr}
use rust_llm_inference_gatew.Prelude.Int.{ℤ, pos, negsuc}
use rust_llm_inference_gatew.Text.{Text, lit}
use rust_llm_inference_gatew.Errors.{Response}
use rust_llm_inference_gatew.Models.{Usage}
use rust_llm_inference_gatew.Metrics.{
  Prometheus, request_labels, length-request_labels, observe_request, observe_backend_error,
  observe_usage, inflight_guard, drop_guard,
}
use rust_llm_inference_gatew.Metrics.Registry.{
  Opts, request_total_opts, request_duration_opts, inflight_opts, backend_errors_opts, tokens_opts,
}
use rust_llm_inference_gatew.Handlers.OneShot.{Observation, usage_observed, backend_error}
use rust_llm_inference_gatew.Handlers.Chat.{Body, observe_one, observe_all, chat_completions}

abbrev pub counters : List Opts
counters = request_total_opts ∷ backend_errors_opts ∷ tokens_opts ∷ []

-- The documented behaviour of `with_label_values`, which panics unless it is given as many values as
-- the metric has labels; `Up` holds of the states without a panic.
pub record PanicsOnArity (P : Prometheus) : Type 1 where
  pub Up : P.State → Type 0
  pub up-inc_by :
      (o : Opts) (s : P.State) (values : List Text) (k : ℕ)
      → In o counters
      → length values ≡ length o.labels
      → Up s
      → Up (P.inc_by s o.name values k)
  pub up-observe :
      (s : P.State) (values : List Text) (d : ℕ)
      → length values ≡ length request_duration_opts.labels
      → Up s
      → Up (P.observe s request_duration_opts.name values d)
  pub up-add : (s : P.State) (z : ℤ) → Up s → Up (P.add s inflight_opts.name z)

module _ (P : Prometheus) (v : PanicsOnArity P) where
  inc_by_tokens_up :
      (s : P.State) (kind : Text) (k : ℕ)
      → v.Up s
      → v.Up (P.inc_by s (lit "gateway_tokens_total") (kind ∷ []) k)
  inc_by_tokens_up s kind k up =
      v.up-inc_by tokens_opts s (kind ∷ []) k (inr (inr (inl refl))) refl up

  observe_usage-Up : (s : P.State) (usage : Usage) → v.Up s → v.Up (observe_usage P s usage)
  unfolding observe_usage
  observe_usage-Up s usage up = inc_by_tokens_up _ (lit "total") usage.total_tokens (
      inc_by_tokens_up _ (lit "completion") usage.completion_tokens
        (inc_by_tokens_up s (lit "prompt") usage.prompt_tokens up))

  observe_backend_error-Up :
      (s : P.State) (stage : Text) → v.Up s → v.Up (observe_backend_error P s stage)
  unfolding observe_backend_error
  observe_backend_error-Up s stage up =
      v.up-inc_by backend_errors_opts s (stage ∷ []) 1 (inr (inl refl)) refl up

  observe_request-Up :
      (s : P.State) (path method : Text) (stream : Bool) (status duration : ℕ)
      → v.Up s
      → v.Up (observe_request P s path method stream status duration)
  unfolding observe_request
  observe_request-Up s path method stream status duration up = v.up-observe _ _ duration refl (
      v.up-inc_by request_total_opts s (request_labels path method stream status) 1 (inl refl)
        (length-request_labels path method stream status) up)

  observe_all-Up :
      (s : P.State) (observed : List Observation) → v.Up s → v.Up (observe_all P s observed)
  unfolding observe_all observe_one
  observe_all-Up s [] up = up
  observe_all-Up s (usage_observed usage ∷ os) up =
      observe_all-Up (observe_usage P s usage) os (observe_usage-Up s usage up)
  observe_all-Up s (backend_error stage ∷ os) up =
      observe_all-Up (observe_backend_error P s stage) os (observe_backend_error-Up s stage up)

  -- Whatever a request of the route observes, and whatever its response, no call of the metrics
  -- panics: each gives as many label values as `AppMetrics::new` declares for its metric.
  pub chat_completions-Up :
      (s : P.State) (stream : Bool) (observed : List Observation) (response : Response Body)
      (elapsed : ℕ)
      → v.Up s
      → v.Up (chat_completions P s stream observed response elapsed).0
  unfolding chat_completions inflight_guard drop_guard
  chat_completions-Up s stream observed response elapsed up = v.up-add _ (negsuc 0) (
      observe_request-Up _ _ _ stream response.status elapsed
        (observe_all-Up _ observed (v.up-add s (pos 1) up)))
