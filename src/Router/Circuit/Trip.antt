-- ===== src/Router/Circuit/Trip.antt =====
-- When failures in a row open the circuit of src/router.rs.
use rust_llm_inference_gatew.Prelude.{
  ℕ, ◌+◌, ◌≤◌, ◌<◌, ◌≡◌, refl, none, some, List, [], ◌∷◌, ◌++◌, arith, length, u32_max,
  length-append, Bool-cases, inl, inr, if◌then◌else◌, leb,
}
use rust_llm_inference_gatew.Router.{EndpointHealth, BackendRouter, record_failure}

-- One failed request: how long it took, and when it ended.
pub record Failure : Type 0 where
  pub latency_ms : ℕ
  pub at : ℕ

fail : BackendRouter → EndpointHealth → Failure → EndpointHealth
fail r h f = record_failure r f.latency_ms f.at h

-- An endpoint after failures in a row.
pub fail_all : BackendRouter → EndpointHealth → List Failure → EndpointHealth
unfolding fail
fail_all r h [] = h
fail_all r h (f ∷ fs) = fail_all r (fail r h f) fs

fail_all-append :
    (r : BackendRouter) (h : EndpointHealth) (fs : List Failure) (f : Failure)
    → fail_all r h (fs ++ f ∷ []) ≡ fail r (fail_all r h fs) f
unfolding fail_all
fail_all-append r h [] f = refl
fail_all-append r h (g ∷ fs) f = fail_all-append r (fail r h g) fs f

failures-fail_all :
    (r : BackendRouter) (h : EndpointHealth) (fs : List Failure)
    → h.consecutive_failures + length fs ≤ u32_max
    → (fail_all r h fs).consecutive_failures ≡ h.consecutive_failures + length fs
unfolding fail_all record_failure
failures-fail_all r h [] room = omega arith
failures-fail_all r h (f ∷ fs) room =
    omega (arith, failures-fail_all r (fail r h f) fs (omega arith))

closed-fail_all :
    (r : BackendRouter) (h : EndpointHealth) (fs : List Failure)
    → r.failure_threshold ≤ u32_max
    → h.circuit_open_until ≡ none
    → h.consecutive_failures + length fs < r.failure_threshold
    → (fail_all r h fs).circuit_open_until ≡ none
unfolding fail_all
closed-fail_all r h [] small c below = c
closed-fail_all r h (f ∷ fs) small c below =
    closed-fail_all r (fail r h f) fs small (unfold record_failure in ground arith)
      (unfold record_failure in omega arith)

-- From a closed circuit with no failures counted, fewer failures in a row than the threshold leave it
-- closed; with that many or more it is open until the cooldown after the last one has passed.
pub trips :
    (r : BackendRouter) (h : EndpointHealth) (fs : List Failure) (last : Failure)
    → h.circuit_open_until ≡ none
    → h.consecutive_failures ≡ 0
    → length fs + 1 ≤ u32_max
    → r.failure_threshold ≤ u32_max
    → (fail_all r h (fs ++ last ∷ [])).circuit_open_until
      ≡ (if leb r.failure_threshold (length fs + 1) then some (last.at + r.cooldown) else none)
trips r h fs last c fresh few small = elim (Bool-cases (leb r.failure_threshold (length fs + 1))) [
  | inl enough ↦
      rw (enough, fail_all-append r h fs last)
        (unfold fail record_failure in ground (arith, failures-fail_all r h fs (omega arith)))
  | inr below ↦
      rw below (
        closed-fail_all r h (fs ++ last ∷ []) small c
          (ground (arith, length-append fs (last ∷ []))))
]
