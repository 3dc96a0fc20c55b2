-- ===== src/Router/Tests.antt =====
-- Runs of the router, and its theorems at concrete inputs.
use rust_llm_inference_gatew.Prelude.{
  ℕ, zero, suc, ◌<◌, ◌≤◌, ◌≡◌, ◌⊎◌, refl, some, ok, err, [], ◌∷◌, ◌++◌, List, arith, All, get_elem?,
  true,
}
use rust_llm_inference_gatew.Text.{lit}
use rust_llm_inference_gatew.Backend.{unavailable, invalid_response}
use rust_llm_inference_gatew.Models.{NormalizedChatRequest}
use rust_llm_inference_gatew.Router.{
  EndpointHealth, BackendRouter, Timed, new_router, default_health, select_endpoint, visit,
}
use rust_llm_inference_gatew.Router.Probes.Outage.{Refuses, health_checks, health_checks-denies}
use rust_llm_inference_gatew.Router.Select.{IsOpen}
use rust_llm_inference_gatew.Router.Select.Choice.{Takes, select_endpoint-decides}
use rust_llm_inference_gatew.Router.RoundRobin.{choices, choices-fair, AllClosed}
use rust_llm_inference_gatew.Router.Circuit.{Event, selects, succeeds, fails, probes, run}
use rust_llm_inference_gatew.Router.Circuit.Consistency.{IsConsistent, run-new_router-IsConsistent}

abbrev tripped : EndpointHealth
tripped = record {
  consecutive_failures = 3;
  circuit_open_until = some 20500;
  last_latency_ms = some 80;
}

-- The first endpoint is open until 20500, the second is healthy.
abbrev half_open : BackendRouter
half_open = record {
  endpoints = tripped ∷ default_health ∷ [];
  next_index = 0;
  failure_threshold = 3;
  cooldown = 20000;
}

abbrev healthy : BackendRouter
healthy = record {
  endpoints = default_health ∷ default_health ∷ [];
  next_index = 0;
  failure_threshold = 3;
  cooldown = 20000;
}

select_endpoint-decides_example :
    ((i : ℕ) × ((select_endpoint half_open 900).1 ≡ ok i)
      × Takes half_open 900 i (select_endpoint half_open 900).0.endpoints)
    ⊎ (((select_endpoint half_open 900).1
          ≡ err (unavailable (lit "all backends are currently unhealthy")))
        × ((i : ℕ) → i < 2 → IsOpen 900 half_open.endpoints i))
select_endpoint-decides_example = select_endpoint-decides half_open 900 (omega arith)

takes_second : (select_endpoint half_open 900).1 ≡ ok 1
unfolding select_endpoint visit
takes_second = refl

healthy-AllClosed : AllClosed healthy.endpoints
healthy-AllClosed zero h e = ground arith
healthy-AllClosed (suc zero) h e = ground arith
healthy-AllClosed (suc (suc i)) h e = absurd (cc)

choices-fair_example :
    (k : ℕ) × (get_elem? (choices healthy (5 ∷ 9 ∷ [])) k ≡ some (ok 1))
    × ((j : ℕ) → get_elem? (choices healthy (5 ∷ 9 ∷ [])) j ≡ some (ok 1) → j ≡ k)
choices-fair_example =
    choices-fair healthy (5 ∷ 9 ∷ []) 1 healthy-AllClosed refl (omega arith) (omega arith)

abbrev events : List Event
events =
    selects 10
    ∷ fails 0 5 15
    ∷ fails 0 5 20
    ∷ fails 0 5 25
    ∷ selects 30
    ∷ succeeds 1 7
    ∷ probes (record { answered = true; elapsed = 3; at = 40 } ∷ [])
    ∷ []

run-new_router-IsConsistent_example : All (IsConsistent 3) (run (new_router 2) events).endpoints
run-new_router-IsConsistent_example = run-new_router-IsConsistent 2 events

-- A provider that does not know the model of the health checks.
abbrev refusing : ℕ → ℕ → NormalizedChatRequest ℕ → Timed
refusing t i request = record {
  result = err (invalid_response (lit "status 404: no such model"));
  elapsed = 5;
  at = t;
}

refusing-Refuses : (s t : ℕ) → s ≤ t → Refuses s (refusing t)
refusing-Refuses s t h i request known =
    ((invalid_response (lit "status 404: no such model"), refl), h)

health_checks-denies_example :
    (select_endpoint
      (health_checks (new_router 1) ((refusing 0 ∷ refusing 15000 ∷ []) ++ refusing 30000 ∷ []))
      49999).1
    ≡ err (unavailable (lit "all backends are currently unhealthy"))
health_checks-denies_example =
    health_checks-denies 1 30000 49999 (refusing 0 ∷ refusing 15000 ∷ []) (refusing 30000)
      (omega arith) (omega arith) (omega arith)
      (refusing-Refuses 0 0 (omega arith), (refusing-Refuses 0 15000 (omega arith), tt))
      (refusing-Refuses 30000 30000 (omega arith)) (omega arith)
