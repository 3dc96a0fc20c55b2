-- ===== src/Handlers/OneShot/Tests.antt =====
-- One-shot requests of src/handlers.rs, with the in-memory limiter and cache.
use rust_llm_inference_gatew.Prelude.{◌≡◌, refl, none, some, [], ◌∷◌, ok, arith}
use rust_llm_inference_gatew.Text.{lit, split_whitespace}
use rust_llm_inference_gatew.Text.Decimal.{to_decimal}
use rust_llm_inference_gatew.HashMap.{empty, get, get-empty}
use rust_llm_inference_gatew.Errors.{unauthorized}
use rust_llm_inference_gatew.Auth.{authenticate}
use rust_llm_inference_gatew.Env.{unwrap_or}
use rust_llm_inference_gatew.Limits.Snapshot.{current_minute_start, current_day_start}
use rust_llm_inference_gatew.Limits.Quota.{current_usage, charge}
use rust_llm_inference_gatew.Limits.Estimate.{estimate_request_tokens}
use rust_llm_inference_gatew.Limits.Interface.{in_memory}
use rust_llm_inference_gatew.Limits.{
  refresh_windows, usage_or_new, check_and_consume_memory, consume,
}
use rust_llm_inference_gatew.Cache.{cache_get}
use rust_llm_inference_gatew.Cache.Interface.{memory}
use rust_llm_inference_gatew.Coalescing.OneShot.{enter}
use rust_llm_inference_gatew.Handlers.OneShot.{
  AppState, settle, accepted, resume_leader, process_chat_completions,
}
use rust_llm_inference_gatew.Handlers.OneShot.Refusals.{Untouched, process-Untouched}
use rust_llm_inference_gatew.Handlers.OneShot.Admission.{accepted_of}
use rust_llm_inference_gatew.Handlers.OneShot.Charge.{process-charges}
use rust_llm_inference_gatew.Handlers.OneShot.Fixture.{
  accepts, digest, registry, idle, at, ingress, policy-IsBounded, request-Fits, admitted, reply,
  served, q0,
}

process-Untouched_example :
    Untouched in_memory memory idle
      (process_chat_completions in_memory memory accepts to_decimal digest registry
        (at 60 0)
        idle
        (ingress none)).0
unfolding process_chat_completions authenticate
process-Untouched_example =
    process-Untouched in_memory memory accepts to_decimal digest registry (at 60 0) idle
      (ingress none) (unauthorized (lit "missing x-api-key header")) refl

-- The coalescer has freed another key since.
abbrev since : AppState in_memory memory
since = (resume_leader in_memory memory served (lit "other") (ok reply)).0

-- The state when the backend returns.
abbrev returned : AppState in_memory memory
returned =
    (resume_leader in_memory memory
      (process_chat_completions in_memory memory accepts to_decimal digest registry (at 60 0) idle
        (ingress (some (107 ∷ [])))).0
      (accepted_of in_memory memory accepts to_decimal digest registry q0).fingerprint (ok reply)).0

process-charges_example :
    get
      (settle in_memory memory accepts
        (at 61 5)
        returned
        (accepted_of in_memory memory accepts to_decimal digest registry q0)
        reply.usage).limiter
      (107 ∷ [])
    ≡ some (charge 7 (current_usage empty (107 ∷ []) 60))
unfolding q0 admitted process_chat_completions accepted current_minute_start current_day_start
    refresh_windows usage_or_new get check_and_consume_memory consume estimate_request_tokens
    split_whitespace unwrap_or cache_get enter resume_leader
process-charges_example =
    process-charges memory accepts to_decimal digest registry q0 (at 61 5) returned reply
      policy-IsBounded (request-Fits empty 60 (get-empty (107 ∷ []))) refl refl (omega arith)
      (omega arith) refl refl
