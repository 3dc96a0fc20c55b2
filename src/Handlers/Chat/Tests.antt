-- ===== src/Handlers/Chat/Tests.antt =====
-- A request of src/handlers.rs against a registry that panics on a wrong number of label values.
use rust_llm_inference_gatew.Prelude.{
  Bool, true, ◌&&◌, ◌||◌, ◌==◌, ◌≡◌, refl, sym, subst, List, [], ◌∷◌, length, In, inl, inr, not,
}
use rust_llm_inference_gatew.Prelude.Int.{pos}
use rust_llm_inference_gatew.Text.{Text, lit, text_eq}
use rust_llm_inference_gatew.HashMap.{empty}
use rust_llm_inference_gatew.Errors.{Response}
use rust_llm_inference_gatew.Metrics.{Prometheus}
use rust_llm_inference_gatew.Metrics.Registry.{Opts, request_duration_opts}
use rust_llm_inference_gatew.Handlers.OneShot.{Observation, usage_observed, backend_error}
use rust_llm_inference_gatew.Handlers.Chat.{Body, error_body, chat_completions}
use rust_llm_inference_gatew.Handlers.Chat.Labels.{PanicsOnArity, counters, chat_completions-Up}

-- The state says whether nothing has panicked.
abbrev fits : List Opts → Text → List Text → Bool
fits [] name values = true
fits (o ∷ os) name values =
    (not (text_eq o.name name) || length values == length o.labels) && fits os name values

abbrev strict : Prometheus
strict = record {
  State = Bool;
  counter = λ s name values. 0;
  gauge = λ s name. pos 0;
  inc_by = λ s name values k. s && fits counters name values;
  add = λ s name z. s;
  observe = λ s name values d. s && fits (request_duration_opts ∷ []) name values;
}

fits_counters :
    (o : Opts) (values : List Text)
    → In o counters
    → length values ≡ length o.labels
    → fits counters o.name values ≡ true
unfolding text_eq lit
fits_counters o values (inl e) =
    subst (λ o'. length values ≡ length o'.labels → fits counters o'.name values ≡ true) (sym e)
      (λ n. rw n refl)
fits_counters o values (inr (inl e)) =
    subst (λ o'. length values ≡ length o'.labels → fits counters o'.name values ≡ true) (sym e)
      (λ n. rw n refl)
fits_counters o values (inr (inr (inl e))) =
    subst (λ o'. length values ≡ length o'.labels → fits counters o'.name values ≡ true) (sym e)
      (λ n. rw n refl)
fits_counters o values (inr (inr (inr h))) = absurd h

fits_duration :
    (values : List Text)
    → length values ≡ 3
    → fits (request_duration_opts ∷ []) (lit "gateway_http_request_duration_seconds") values ≡ true
unfolding text_eq lit
fits_duration values n = rw n refl

abbrev strict-PanicsOnArity : PanicsOnArity strict
strict-PanicsOnArity = record {
  Up = λ s. s ≡ true;
  up-inc_by = λ o s values k is_counter n up. rw (up, fits_counters o values is_counter n) refl;
  up-observe = λ s values d n up. rw (up, fits_duration values n) refl;
  up-add = λ s z up. up;
}

abbrev observed : List Observation
observed =
    usage_observed (record { prompt_tokens = 2; completion_tokens = 3; total_tokens = 5 })
    ∷ backend_error (lit "stream_fanout")
    ∷ []

abbrev response : Response Body
response = record {
  status = 502;
  headers = empty;
  body = error_body (record { message = lit "down"; error_type = lit "backend_error" });
}

strict_request : (chat_completions strict true true observed response 7).0 ≡ true
strict_request = chat_completions-Up strict strict-PanicsOnArity true true observed response 7 refl
