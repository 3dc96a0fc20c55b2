-- ===== src/Router/Requests.antt =====
-- What becomes of one request through src/router.rs.
use rust_llm_inference_gatew.Prelude.{
  ℕ, ◌-◌, ◌≡◌, refl, ap, subst, sym, Option, none, some, List, Result, ok, err, ◌⊎◌, inl, inr,
}
use rust_llm_inference_gatew.Text.{lit}
use rust_llm_inference_gatew.Backend.{BackendError, unavailable}
use rust_llm_inference_gatew.Models.{BackendChatResponse}
use rust_llm_inference_gatew.Router.{
  EndpointHealth, BackendRouter, Answer, execute_chat, after_selection, marked, select_endpoint,
  selected, mark_success, mark_failure,
}
use rust_llm_inference_gatew.Router.Select.Choice.{Takes, select_endpoint-Takes}

abbrev pub all_unhealthy : BackendError
all_unhealthy = unavailable (lit "all backends are currently unhealthy")

selected-cases :
    (r : BackendRouter) (o : Option (ℕ × List EndpointHealth))
    → ((selected r o).1 ≡ err all_unhealthy) ⊎ ((endpoint : ℕ) × ((selected r o).1 ≡ ok endpoint))
unfolding selected
selected-cases r none = inl refl
selected-cases r (some (index, endpoints)) = inr (index, refl)

select_endpoint-cases :
    (r : BackendRouter) (now : ℕ)
    → ((select_endpoint r now).1 ≡ err all_unhealthy)
      ⊎ ((endpoint : ℕ) × ((select_endpoint r now).1 ≡ ok endpoint))
unfolding select_endpoint
select_endpoint-cases r now = selected-cases _ _

-- The circuit of the endpoint after its answer.
abbrev pub noted :
    BackendRouter → ℕ → ℕ → Result BackendChatResponse BackendError → ℕ → BackendRouter
noted r endpoint latency_ms (ok response) at = mark_success r endpoint latency_ms
noted r endpoint latency_ms (err error) at = mark_failure r endpoint latency_ms at

-- A request is either sent to the endpoint that the selection takes, whose own answer is passed on and
-- noted in its circuit, or the selection takes none, and it is told that all are unhealthy.
module _ (r : BackendRouter) (now : ℕ) (answers : ℕ → Answer BackendChatResponse) where
  abbrev pub IsServed : Result BackendChatResponse BackendError → BackendRouter → Type 0
  IsServed result after =
      ((endpoint : ℕ) × ((select_endpoint r now).1 ≡ ok endpoint)
        × Takes r now endpoint (select_endpoint r now).0.endpoints
        × (result ≡ (answers endpoint).result)
        × (after
            ≡ noted (select_endpoint r now).0 endpoint ((answers endpoint).at - now) result
                (answers endpoint).at))
      ⊎ (((select_endpoint r now).1 ≡ err all_unhealthy)
          × (result ≡ err all_unhealthy)
          × (after ≡ (select_endpoint r now).0))

  marked-noted :
      (s : BackendRouter) (endpoint : ℕ) (answer : Answer BackendChatResponse)
      → ((marked s endpoint now answer).1 ≡ answer.result)
        × ((marked s endpoint now answer).0
            ≡ noted s endpoint (answer.at - now) (marked s endpoint now answer).1 answer.at)
  unfolding marked
  marked-noted s endpoint answer =
      elim answer.result
        as (λ result.
          let m = marked s endpoint now (record { result = result; at = answer.at }) in
          (m.1 ≡ result) × (m.0 ≡ noted s endpoint (answer.at - now) m.1 answer.at)) [
            | ok a ↦ (refl, refl)
            | err e ↦ (refl, refl)
          ]

  pub execute_chat-IsServed : IsServed (execute_chat r now answers).1 (execute_chat r now answers).0
  unfolding execute_chat after_selection
  execute_chat-IsServed = elim (select_endpoint-cases r now) [
    | inl closed ↦ rw closed (inr (refl, refl, refl))
    | inr (endpoint, chosen) ↦
        let (same, after) = marked-noted (select_endpoint r now).0 endpoint (answers endpoint) in
        subst (λ (d : BackendRouter × Result BackendChatResponse BackendError). IsServed d.1 d.0)
          (sym (ap (λ c. after_selection (select_endpoint r now).0 c now answers) chosen))
          (inl (endpoint, chosen, select_endpoint-Takes r now endpoint chosen, same, after))
  ]
