-- ===== src/Router/Circuit/Consistency.antt =====
-- The circuit of src/router.rs and its count of failures agree in every reachable state.
use rust_llm_inference_gatew.Prelude.{
  ℕ, zero, suc, ◌+◌, ◌≤◌, ◌<◌, ◌≡◌, refl, ◌⊎◌, inl, inr, none, some, List, [], ◌∷◌, arith,
  replicate, u32_max, leb, saturating_add_u32, All, Bool-cases, subst, ◌∙◌, Option,
}
use rust_llm_inference_gatew.Router.{
  EndpointHealth, BackendRouter, Probe, visit, select_endpoint, selected, record_success,
  record_failure, mark_success, mark_failure, apply_probe, check_once, new_router, default_health,
}
use rust_llm_inference_gatew.Router.Circuit.{
  Event, selects, succeeds, fails, probes, step, run, All-step,
}

-- A circuit is closed with fewer failures in a row than the threshold, and open from there on.
abbrev pub IsConsistent : ℕ → EndpointHealth → Type 0
IsConsistent threshold h =
    ((h.circuit_open_until ≡ none) × (h.consecutive_failures < threshold))
    ⊎ ((until : ℕ) × (h.circuit_open_until ≡ some until) × (threshold ≤ h.consecutive_failures))

module _ (threshold : ℕ) (pos : 0 < threshold) (small : threshold ≤ u32_max) where
  visit-IsConsistent :
      (now : ℕ) (h h' : EndpointHealth)
      → visit now h ≡ some h'
      → IsConsistent threshold h
      → IsConsistent threshold h'
  unfolding visit
  visit-IsConsistent now h h' e c = ground arith

  record_success-IsConsistent :
      (latency_ms : ℕ) (h : EndpointHealth)
      → IsConsistent threshold h
      → IsConsistent threshold (record_success latency_ms h)
  unfolding record_success
  record_success-IsConsistent latency_ms h c = inl (refl, pos)

record_failure-IsConsistent :
    (r : BackendRouter) (latency_ms now : ℕ) (h : EndpointHealth)
    → r.failure_threshold ≤ u32_max
    → IsConsistent r.failure_threshold h
    → IsConsistent r.failure_threshold (record_failure r latency_ms now h)
unfolding record_failure
record_failure-IsConsistent r latency_ms now h small c =
    elim (Bool-cases (leb r.failure_threshold (saturating_add_u32 h.consecutive_failures 1))) [
      | inl trips ↦ inr (now + r.cooldown, rw trips, ground arith)
      | inr below ↦ inl (ground arith)
    ]

apply_probe-IsConsistent :
    (r : BackendRouter) (p : Probe) (h : EndpointHealth)
    → 0 < r.failure_threshold
    → r.failure_threshold ≤ u32_max
    → IsConsistent r.failure_threshold h
    → IsConsistent r.failure_threshold (apply_probe r p h)
unfolding apply_probe
apply_probe-IsConsistent r p h pos small c = elim (Bool-cases p.answered) [
  | inl ok_ ↦ rw ok_ (inl (refl, pos))
  | inr bad ↦
      elim (Bool-cases (leb r.failure_threshold (saturating_add_u32 h.consecutive_failures 1))) [
        | inl trips ↦ rw (bad, trips) (inr (p.at + r.cooldown, refl, ground arith))
        | inr below ↦ rw (bad, below) (inl (ground arith))
      ]
]

selected-threshold :
    (r : BackendRouter) (o : Option (ℕ × List EndpointHealth))
    → (selected r o).0.failure_threshold ≡ r.failure_threshold
unfolding selected
selected-threshold r none = refl
selected-threshold r (some x) = refl

step-threshold :
    (r : BackendRouter) (e : Event) → (step r e).failure_threshold ≡ r.failure_threshold
unfolding step select_endpoint mark_success mark_failure check_once
step-threshold r (selects now) = selected-threshold _ _
step-threshold r (succeeds i latency_ms) = refl
step-threshold r (fails i latency_ms now) = refl
step-threshold r (probes ps) = refl

run-IsConsistent :
    (threshold : ℕ) (r : BackendRouter) (es : List Event)
    → r.failure_threshold ≡ threshold
    → 0 < threshold
    → threshold ≤ u32_max
    → All (IsConsistent threshold) r.endpoints
    → All (IsConsistent threshold) (run r es).endpoints
unfolding run
run-IsConsistent t r [] e pos small a = a
run-IsConsistent t r (v ∷ es) e pos small a =
    run-IsConsistent t (step r v) es (step-threshold r v ∙ e) pos small (
      subst (λ t. All (IsConsistent t) (step r v).endpoints) e
        (All-step (IsConsistent r.failure_threshold) r v
          (visit-IsConsistent r.failure_threshold (rw e pos) (rw e small))
          (record_success-IsConsistent r.failure_threshold (rw e pos) (rw e small))
          (λ latency_ms now h. record_failure-IsConsistent r latency_ms now h (rw e small))
          (λ p h. apply_probe-IsConsistent r p h (rw e pos) (rw e small)) (rw e a)))

All-default : (n : ℕ) → All (IsConsistent 3) (replicate n default_health)
All-default zero = tt
All-default (suc n) = (inl (refl, omega arith), All-default n)

-- In a new router, after any selections, outcomes of requests and health checks in any order, the
-- circuit of every endpoint is closed with fewer than three failures in a row, or open with three
-- or more.
pub run-new_router-IsConsistent :
    (total : ℕ) (es : List Event) → All (IsConsistent 3) (run (new_router total) es).endpoints
unfolding new_router
run-new_router-IsConsistent total es =
    run-IsConsistent 3 (new_router total) es refl (omega arith) (omega arith) (All-default total)
