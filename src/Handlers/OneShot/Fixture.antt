-- ===== src/Handlers/OneShot/Fixture.antt =====
-- One gateway of src/handlers.rs with the in-memory limiter and cache, and requests to it.
use rust_llm_inference_gatew.Prelude.{
  ℕ, ◌%◌, ◌≡◌, refl, Bool, true, false, Option, none, some, List, [], ◌∷◌, ◌++◌, arith, length,
}
use rust_llm_inference_gatew.Text.{
  Text, lit, trim, is_empty, is_whitespace, split_whitespace, text_eq,
}
use rust_llm_inference_gatew.Text.Decimal.{to_decimal}
use rust_llm_inference_gatew.HashMap.{HashMap, empty, get, get-empty}
use rust_llm_inference_gatew.Models.{
  user, BackendChatResponse, NormalizedChatRequest, into_normalized,
}
use rust_llm_inference_gatew.Auth.{AuthContext, ApiKeyRegistry, authenticate}
use rust_llm_inference_gatew.Env.{unwrap_or}
use rust_llm_inference_gatew.Scheduler.{fingerprint_for}
use rust_llm_inference_gatew.Limits.Snapshot.{RatePolicy, KeyUsage, snapshot}
use rust_llm_inference_gatew.Limits.Quota.{
  IsBounded, Fits, current_usage, charge, check_and_consume-admits,
}
use rust_llm_inference_gatew.Limits.Estimate.{estimate_request_tokens}
use rust_llm_inference_gatew.Limits.Interface.{in_memory}
use rust_llm_inference_gatew.Limits.{refresh_windows, usage_or_new}
use rust_llm_inference_gatew.Cache.{new_cache}
use rust_llm_inference_gatew.Cache.Interface.{memory}
use rust_llm_inference_gatew.Handlers.OneShot.{Now, AppState, Ingress, Accepted, store_response}
use rust_llm_inference_gatew.Handlers.OneShot.Admission.{Admitted}

abbrev pub accepts : Text → Text → Bool
accepts name value = true

abbrev pub digest : Text → List ℕ
digest s = length s % 256 ∷ []

abbrev pub policy : RatePolicy
policy = record { requests_per_minute = 2; tokens_per_minute = 1000; tokens_per_day = 10000 }

abbrev pub registry : ApiKeyRegistry
registry = record { valid_keys = (107 ∷ []) ∷ []; policy = policy }

abbrev pub idle : AppState in_memory memory
idle = record {
  limiter = empty;
  cache = new_cache (record { ttl = 90 });
  coalescer = record { inflight = empty; sent = [] };
  observed = [];
}

abbrev pub at : ℕ → ℕ → Now
at unix instant = record { unix = unix; instant = instant }

abbrev pub ingress : Option Text → Ingress ℕ
ingress header = record {
  caller = 1;
  header = header;
  body = record {
    model = 109 ∷ [];
    messages = record { role = user; content = 104 ∷ [] } ∷ [];
    max_tokens = some 4;
    temperature = none;
    top_p = none;
    stream = false;
    user = none;
  };
  request_uuid = [];
  response_uuid = [];
}

abbrev pub context : AuthContext
context = record { api_key = 107 ∷ []; user_id = lit "key_" ++ 107 ∷ []; policy = policy }

abbrev pub request : NormalizedChatRequest ℕ
request = record {
  request_id = lit "req_" ++ [];
  user_id = lit "key_" ++ 107 ∷ [];
  model = 109 ∷ [];
  messages = record { role = user; content = 104 ∷ [] } ∷ [];
  generation = record { max_tokens = some 4; temperature = none; top_p = none };
  stream = false;
}

pub policy-IsBounded : IsBounded policy
policy-IsBounded = record { requests = omega arith; minute = omega arith; day = omega arith }

estimate_of_request : estimate_request_tokens request ≡ 5
unfolding estimate_request_tokens trim is_empty is_whitespace split_whitespace unwrap_or
estimate_of_request = refl

pub request-Fits :
    (m : HashMap KeyUsage) (now : ℕ)
    → get m (107 ∷ []) ≡ none
    → Fits policy (estimate_request_tokens request) (current_usage m (107 ∷ []) now)
unfolding refresh_windows usage_or_new
request-Fits m now h = rw (h, usage_or_new, estimate_of_request) (ground arith)

unfoldable pub admitted :
    (s : AppState in_memory memory) (now : Now)
    → get s.limiter (107 ∷ []) ≡ none
    → Admitted in_memory memory accepts to_decimal digest registry now s (ingress (some (107 ∷ [])))
unfolding authenticate trim is_empty is_whitespace text_eq into_normalized
admitted s now h = record {
  context = context;
  request = request;
  snapshot =
      snapshot policy
        (charge (estimate_request_tokens request) (current_usage s.limiter (107 ∷ []) now.unix))
        now.unix;
  authenticated = refl;
  normalized = refl;
  within =
      (check_and_consume-admits s.limiter (107 ∷ []) policy (estimate_request_tokens request)
        now.unix policy-IsBounded (request-Fits s.limiter now.unix h)).0;
  one_shot = refl;
}

abbrev pub reply : BackendChatResponse
reply = record {
  content = 111 ∷ 107 ∷ [];
  finish_reason = lit "stop";
  usage = record { prompt_tokens = 1; completion_tokens = 6; total_tokens = 7 };
}

abbrev pub asked : ℕ → Accepted ℕ
asked caller = record {
  caller = caller;
  request = request;
  api_key = 107 ∷ [];
  fingerprint = fingerprint_for to_decimal digest request;
  estimated_tokens = 5;
  rate_snapshot =
      snapshot policy (charge (estimate_request_tokens request) (current_usage empty (107 ∷ []) 60))
        60;
  response_id = lit "chatcmpl-" ++ [];
  created = 60;
}

abbrev pub served : AppState in_memory memory
served = (store_response in_memory memory accepts (at 61 10) idle (asked 1) reply).0

pub served-free : get served.limiter (107 ∷ []) ≡ none
unfolding store_response get
served-free = refl

unfoldable pub q0 :
    Admitted in_memory memory accepts to_decimal digest registry
      (at 60 0)
      idle
      (ingress (some (107 ∷ [])))
q0 = admitted idle (at 60 0) (get-empty (107 ∷ []))
