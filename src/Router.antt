-- ===== src/Router.antt =====
-- src/router.rs: round-robin selection with a circuit breaker per endpoint. Times are milliseconds
-- and arguments; an endpoint is its position. A whole selection is one step here; Router/Interleaved
-- takes the lock of an endpoint, held for each visit of it, as the unit.
pub mod Select
pub mod RoundRobin
pub mod Circuit
pub mod Requests
pub mod Probes
pub mod Interleaved
mod Tests
use rust_llm_inference_gatew.Prelude.{
  ℕ, zero, suc, ◌+◌, ◌-◌, ◌%◌, ◌≤◌, Bool, true, false, Option, none, some, List, [], ◌∷◌, Result,
  ok, err, length, get_elem?, set, ltb, leb, if◌then◌else◌, saturating_add_u32, as_u64, replicate,
}
use rust_llm_inference_gatew.Text.{lit}
use rust_llm_inference_gatew.Backend.{BackendError, unavailable}
use rust_llm_inference_gatew.Models.{user, BackendChatResponse, NormalizedChatRequest}

pub record EndpointHealth : Type 0 where
  pub consecutive_failures : ℕ
  pub circuit_open_until : Option ℕ
  pub last_latency_ms : Option ℕ

pub record BackendRouter : Type 0 where
  pub endpoints : List EndpointHealth
  pub next_index : ℕ
  pub failure_threshold : ℕ
  pub cooldown : ℕ

-- `EndpointHealth::default()`
abbrev pub default_health : EndpointHealth
default_health = record {
  consecutive_failures = 0;
  circuit_open_until = none;
  last_latency_ms = none;
}

-- `BackendRouter::new`, for so many backends
unfoldable pub new_router : ℕ → BackendRouter
new_router total = record {
  endpoints = replicate total default_health;
  next_index = 0;
  failure_threshold = 3;
  cooldown = 20000;
}

-- The body of the loop of `select_endpoint`: `none` is its `continue`.
pub visit : ℕ → EndpointHealth → Option EndpointHealth
visit now h = elim h.circuit_open_until [
  | none ↦ some h
  | some until ↦
      if ltb now until
      then none
      else some (record h { circuit_open_until = none; consecutive_failures = 0 })
]

pub visit_at : ℕ → List EndpointHealth → ℕ → Option EndpointHealth
unfolding visit
visit_at now endpoints index = elim (get_elem? endpoints index) [
  | none ↦ none
  | some h ↦ visit now h
]

-- The loop, from `offset` on, over the offsets that are left.
scan : ℕ → ℕ → ℕ → ℕ → List EndpointHealth → Option (ℕ × List EndpointHealth)
scan zero offset start now endpoints = none
scan (suc left) offset start now endpoints =
    let index = as_u64 (start + offset) % length endpoints in
    let rest = scan left (offset + 1) start now endpoints in
    elim (visit_at now endpoints index) [
      | none ↦ rest
      | some h ↦ some (index, set endpoints index h)
    ]

selected : BackendRouter → Option (ℕ × List EndpointHealth) → BackendRouter × Result ℕ BackendError
selected r none = (r, err (unavailable (lit "all backends are currently unhealthy")))
selected r (some (index, endpoints)) = (record r { endpoints = endpoints }, ok index)

-- The index stands for the endpoint that the source clones.
unfoldable pub select_endpoint : BackendRouter → ℕ → BackendRouter × Result ℕ BackendError
unfolding scan visit_at selected
select_endpoint r now =
    selected (record r { next_index = as_u64 (r.next_index + 1) })
      (scan (length r.endpoints) 0 r.next_index now r.endpoints)

pub record_success : ℕ → EndpointHealth → EndpointHealth
record_success latency_ms h = record {
  consecutive_failures = 0;
  circuit_open_until = none;
  last_latency_ms = some latency_ms;
}

pub record_failure : BackendRouter → ℕ → ℕ → EndpointHealth → EndpointHealth
record_failure r latency_ms now h =
    let failures = saturating_add_u32 h.consecutive_failures 1 in
    record {
      consecutive_failures = failures;
      circuit_open_until =
          if leb r.failure_threshold failures
          then some (now + r.cooldown)
          else h.circuit_open_until;
      last_latency_ms = some latency_ms;
    }

pub update_at : List EndpointHealth → ℕ → (EndpointHealth → EndpointHealth) → List EndpointHealth
update_at [] i f = []
update_at (h ∷ hs) zero f = f h ∷ hs
update_at (h ∷ hs) (suc i) f = h ∷ update_at hs i f

pub mark_success : BackendRouter → ℕ → ℕ → BackendRouter
unfolding update_at record_success
mark_success r endpoint latency_ms = record r {
  endpoints = update_at r.endpoints endpoint (record_success latency_ms);
}

pub mark_failure : BackendRouter → ℕ → ℕ → ℕ → BackendRouter
unfolding update_at record_failure
mark_failure r endpoint latency_ms now = record r {
  endpoints = update_at r.endpoints endpoint (record_failure r latency_ms now);
}

-- What a health check asks each endpoint.
pub health_probe_request : {F : Type 0} → NormalizedChatRequest F
health_probe_request = record {
  request_id = lit "health-probe";
  user_id = lit "system";
  model = lit "health-probe";
  messages = record { role = user; content = lit "healthcheck" } ∷ [];
  generation = record { max_tokens = some 1; temperature = none; top_p = none };
  stream = false;
}

-- What a health check learns of one endpoint: whether it answered, how long that took, and when.
pub record Probe : Type 0 where
  pub answered : Bool
  pub elapsed : ℕ
  pub at : ℕ

-- What the backend of an endpoint answers to a request, how long that takes, and when it comes.
pub record Timed : Type 0 where
  pub result : Result BackendChatResponse BackendError
  pub elapsed : ℕ
  pub at : ℕ

pub probe_of : Timed → Probe
probe_of answer = record {
  answered = elim answer.result [ ok response ↦ true | err e ↦ false ];
  elapsed = answer.elapsed;
  at = answer.at;
}

-- The health check of so many endpoints, from a position on.
pub probes_from : {F : Type 0} → (ℕ → NormalizedChatRequest F → Timed) → ℕ → ℕ → List Probe
unfolding probe_of health_probe_request
probes_from ask i zero = []
probes_from ask i (suc left) = probe_of (ask i health_probe_request) ∷ probes_from ask (suc i) left

-- The body of the loop of `check_once`.
pub apply_probe : BackendRouter → Probe → EndpointHealth → EndpointHealth
apply_probe r p h =
    let failures = saturating_add_u32 h.consecutive_failures 1 in
    if p.answered
    then record {
      consecutive_failures = 0;
      circuit_open_until = none;
      last_latency_ms = some p.elapsed;
    }
    else record {
      consecutive_failures = failures;
      circuit_open_until =
          if leb r.failure_threshold failures
          then some (p.at + r.cooldown)
          else h.circuit_open_until;
      last_latency_ms = some p.elapsed;
    }

-- One round of `check_once`, the probe of each endpoint given.
check_endpoints : BackendRouter → List Probe → List EndpointHealth → List EndpointHealth
unfolding apply_probe
check_endpoints r probes [] = []
check_endpoints r [] (h ∷ hs) = h ∷ hs
check_endpoints r (p ∷ probes) (h ∷ hs) = apply_probe r p h ∷ check_endpoints r probes hs

pub check_once : BackendRouter → List Probe → BackendRouter
unfolding check_endpoints
check_once r probes = record r { endpoints = check_endpoints r probes r.endpoints }

-- The call of the selected backend: what it answers, and when.
pub record Answer (A : Type 0) : Type 0 where
  pub result : Result A BackendError
  pub at : ℕ

marked : {A : Type 0} → BackendRouter → ℕ → ℕ → Answer A → BackendRouter × Result A BackendError
unfolding mark_success mark_failure
marked r endpoint started answer = elim answer.result [
  | ok a ↦ (mark_success r endpoint (answer.at - started), ok a)
  | err e ↦ (mark_failure r endpoint (answer.at - started) answer.at, err e)
]

after_selection :
    {A : Type 0}
    → BackendRouter
    → Result ℕ BackendError
    → ℕ
    → (ℕ → Answer A)
    → BackendRouter × Result A BackendError
unfolding marked
after_selection r (err e) now answers = (r, err e)
after_selection r (ok endpoint) now answers = marked r endpoint now (answers endpoint)

-- `execute_chat` and `stream_chat` of the router, which differ in the call that they pass on. Of
-- each endpoint `answers` says what that call would return.
pub execute_chat :
    {A : Type 0} → BackendRouter → ℕ → (ℕ → Answer A) → BackendRouter × Result A BackendError
unfolding after_selection
execute_chat r now answers =
    let (r', chosen) = select_endpoint r now in after_selection r' chosen now answers
