-- ===== src/Router/Probes/Outage.antt =====
-- Health checks of src/router.rs of backends that do not know the model `health-probe`.
use rust_llm_inference_gatew.Prelude.{
  ℕ, zero, suc, ◌+◌, ◌^◌, ◌≤◌, ◌<◌, ◌≡◌, refl, ap, ◌∙◌, false, err, List, [], ◌∷◌, ◌++◌, map, All,
  arith, length, u32_max,
}
use rust_llm_inference_gatew.Text.{lit}
use rust_llm_inference_gatew.Backend.{BackendError, unavailable}
use rust_llm_inference_gatew.Models.{NormalizedChatRequest}
use rust_llm_inference_gatew.Router.{
  EndpointHealth, BackendRouter, Probe, new_router, check_endpoints, check_once, select_endpoint,
  Timed, probe_of, probes_from, health_probe_request,
}
use rust_llm_inference_gatew.Router.Probes.{Fails, check_rounds, check_rounds-denies}

-- No backend answers a request for the model of the health checks; the refusals come at `t` or later.
abbrev pub Refuses : {F : Type 0} → ℕ → (ℕ → NormalizedChatRequest F → Timed) → Type 0
Refuses {F} t ask =
    (i : ℕ) (request : NormalizedChatRequest F)
    → request.model ≡ lit "health-probe"
    → ((e : BackendError) × ((ask i request).result ≡ err e)) × (t ≤ (ask i request).at)

probe_of-failed :
    (answer : Timed) (e : BackendError) → answer.result ≡ err e → (probe_of answer).answered ≡ false
unfolding probe_of
probe_of-failed answer e h = rw h refl

probes_from-Fails :
    {F : Type 0} (t : ℕ) (ask : ℕ → NormalizedChatRequest F → Timed) (i total : ℕ)
    → Refuses t ask
    → Fails t total (probes_from ask i total)
unfolding probes_from health_probe_request
probes_from-Fails t ask i zero r = record { complete = refl; failed = tt; late = tt }
probes_from-Fails t ask i (suc total) r =
    let rest = probes_from-Fails t ask (suc i) total r in
    let ((e, refused), late) = r i health_probe_request refl in
    record {
      complete = ap suc rest.complete;
      failed = (probe_of-failed (ask i health_probe_request) e refused, rest.failed);
      late = (unfold probe_of in late, rest.late);
    }

check_endpoints-length :
    (r : BackendRouter) (probes : List Probe) (hs : List EndpointHealth)
    → length (check_endpoints r probes hs) ≡ length hs
unfolding check_endpoints
check_endpoints-length r probes [] = refl
check_endpoints-length r [] (h ∷ hs) = refl
check_endpoints-length r (p ∷ probes) (h ∷ hs) = ap suc (check_endpoints-length r probes hs)

new_router-length : (total : ℕ) → length (new_router total).endpoints ≡ total
unfolding new_router
new_router-length zero = refl
new_router-length (suc total) = ap suc (new_router-length total)

module _ {F : Type 0} where
  -- The rounds of `spawn_health_checks`, each with the backends as they are then.
  pub health_checks : BackendRouter → List (ℕ → NormalizedChatRequest F → Timed) → BackendRouter
  health_checks r [] = r
  health_checks r (ask ∷ asks) =
      health_checks (check_once r (probes_from ask 0 (length r.endpoints))) asks

  health_checks-check_rounds :
      (r : BackendRouter) (total : ℕ) (asks : List (ℕ → NormalizedChatRequest F → Timed))
      → length r.endpoints ≡ total
      → health_checks r asks ≡ check_rounds r (map (λ ask. probes_from ask 0 total) asks)
  unfolding health_checks check_rounds
  health_checks-check_rounds r total [] e = refl
  health_checks-check_rounds r total (ask ∷ asks) e = rw e (
      health_checks-check_rounds (check_once r (probes_from ask 0 total)) total asks
        (unfold check_once in check_endpoints-length r (probes_from ask 0 total) r.endpoints ∙ e))

  map-snoc :
      (total : ℕ) (asks : List (ℕ → NormalizedChatRequest F → Timed))
      (last : ℕ → NormalizedChatRequest F → Timed)
      → map (λ ask. probes_from ask 0 total) (asks ++ last ∷ [])
        ≡ map (λ ask. probes_from ask 0 total) asks ++ probes_from last 0 total ∷ []
  map-snoc total [] last = refl
  map-snoc total (ask ∷ asks) last =
      ap (λ rest. probes_from ask 0 total ∷ rest) (map-snoc total asks last)

  All-Fails :
      (total : ℕ) (asks : List (ℕ → NormalizedChatRequest F → Timed))
      → All (Refuses 0) asks
      → All (Fails 0 total) (map (λ ask. probes_from ask 0 total) asks)
        × (length (map (λ ask. probes_from ask 0 total) asks) ≡ length asks)
  All-Fails total [] v = (tt, refl)
  All-Fails total (ask ∷ asks) (h, v) =
      let (rest, size) = All-Fails total asks v in
      ((probes_from-Fails 0 ask 0 total h, rest), ap suc size)

  -- If no backend of a new router answers requests for the model `health-probe`, then after three or
  -- more rounds of health checks with no request in between, every request, for whichever model, finds
  -- no endpoint for 20 seconds after the last round.
  pub health_checks-denies :
      (total t now : ℕ) (asks : List (ℕ → NormalizedChatRequest F → Timed))
      (last : ℕ → NormalizedChatRequest F → Timed)
      → total ≤ 2 ^ 64
      → length asks + 1 ≤ u32_max
      → 2 ≤ length asks
      → All (Refuses 0) asks
      → Refuses t last
      → now < t + 20000
      → (select_endpoint (health_checks (new_router total) (asks ++ last ∷ [])) now).1
        ≡ err (unavailable (lit "all backends are currently unhealthy"))
  health_checks-denies total t now asks last fits small enough v r early =
      let (failing, size) = All-Fails total asks v in
      ap (λ router. (select_endpoint router now).1)
        (health_checks-check_rounds (new_router total) total (asks ++ last ∷ [])
            (new_router-length total)
          ∙ ap (check_rounds (new_router total)) (map-snoc total asks last))
      ∙ check_rounds-denies total t now (map (λ ask. probes_from ask 0 total) asks)
          (probes_from last 0 total) fits (omega (arith, size, small)) (omega (arith, size, enough))
          failing (probes_from-Fails t last 0 total r) early
