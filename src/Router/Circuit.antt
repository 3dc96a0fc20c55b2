-- ===== src/Router/Circuit.antt =====
-- The circuit breaker of src/router.rs, over any sequence of what the router does to its endpoints.
pub mod Cooldown
pub mod Trip
pub mod Consistency
use rust_llm_inference_gatew.Prelude.{
  ℕ, zero, suc, ◌+◌, ◌≤◌, ◌<◌, ◌≡◌, refl, ◌⊎◌, Option, none, some, List, [], ◌∷◌, arith, length,
  get_elem?, set, u32_max, subst, as_u64, ◌%◌, leb, saturating_add_u32, All, Bool-cases, inl, inr,
  Option-cases,
}
use rust_llm_inference_gatew.Router.{
  EndpointHealth, BackendRouter, Probe, visit, visit_at, scan, selected, select_endpoint,
  record_success, record_failure, update_at, mark_success, mark_failure, apply_probe,
  check_endpoints, check_once, new_router, default_health,
}

-- What happens to the endpoints, in any order: selections, the outcomes of the requests that they
-- led to, and rounds of health checks.
pub data Event : Type 0 where
  selects : (now : ℕ) → Event
  succeeds : (endpoint latency_ms : ℕ) → Event
  fails : (endpoint latency_ms now : ℕ) → Event
  probes : List Probe → Event

pub step : BackendRouter → Event → BackendRouter
step r (selects now) = (select_endpoint r now).0
step r (succeeds endpoint latency_ms) = mark_success r endpoint latency_ms
step r (fails endpoint latency_ms now) = mark_failure r endpoint latency_ms now
step r (probes ps) = check_once r ps

pub run : BackendRouter → List Event → BackendRouter
run r [] = r
run r (e ∷ es) = run (step r e) es

-- A property of single endpoints that each of the four updates keeps.
module _ (P : EndpointHealth → Type 0) where
  All-update_at :
      (hs : List EndpointHealth) (i : ℕ) (f : EndpointHealth → EndpointHealth)
      → ((h : EndpointHealth) → P h → P (f h))
      → All P hs
      → All P (update_at hs i f)
  unfolding update_at
  All-update_at [] i f keep a = a
  All-update_at (h ∷ hs) zero f keep a = (keep h a.0, a.1)
  All-update_at (h ∷ hs) (suc i) f keep a = (a.0, All-update_at hs i f keep a.1)

  All-set :
      (hs : List EndpointHealth) (i : ℕ) (h : EndpointHealth) → P h → All P hs → All P (set hs i h)
  All-set [] i h p a = a
  All-set (x ∷ xs) zero h p a = (p, a.1)
  All-set (x ∷ xs) (suc i) h p a = (a.0, All-set xs i h p a.1)

  All-get :
      (hs : List EndpointHealth) (i : ℕ) (h : EndpointHealth)
      → get_elem? hs i ≡ some h
      → All P hs
      → P h
  All-get [] i h e a = absurd (cc)
  All-get (x ∷ xs) zero h e a = subst P (ground arith) a.0
  All-get (x ∷ xs) (suc i) h e a = All-get xs i h e a.1

  All-check_endpoints :
      (r : BackendRouter) (ps : List Probe) (hs : List EndpointHealth)
      → ((p : Probe) (h : EndpointHealth) → P h → P (apply_probe r p h))
      → All P hs
      → All P (check_endpoints r ps hs)
  unfolding check_endpoints
  All-check_endpoints r ps [] keep a = a
  All-check_endpoints r [] (h ∷ hs) keep a = a
  All-check_endpoints r (p ∷ ps) (h ∷ hs) keep a =
      (keep p h a.0, All-check_endpoints r ps hs keep a.1)

  abbrev AllAfter : Option (ℕ × List EndpointHealth) → Type 0
  AllAfter none = Unit
  AllAfter (some (i, hs)) = All P hs

  visit_at-keeps :
      (now : ℕ) (hs : List EndpointHealth) (i : ℕ) (h' : EndpointHealth)
      → ((h h' : EndpointHealth) → visit now h ≡ some h' → P h → P h')
      → All P hs
      → visit_at now hs i ≡ some h'
      → P h'
  unfolding visit_at
  visit_at-keeps now hs i h' keep a e = elim (Option-cases (get_elem? hs i)) [
    | inl out ↦ absurd (ground arith)
    | inr (h, here) ↦ keep h h' (ground arith) (All-get hs i h here a)
  ]

  All-scan :
      (left offset start now : ℕ) (hs : List EndpointHealth)
      → ((h h' : EndpointHealth) → visit now h ≡ some h' → P h → P h')
      → All P hs
      → AllAfter (scan left offset start now hs)
  unfolding scan
  All-scan zero offset start now hs keep a = tt
  All-scan (suc left) offset start now hs keep a =
      let i = as_u64 (start + offset) % length hs in
      elim (Option-cases (visit_at now hs i)) [
        | inl skip ↦ rw (skip, scan) (All-scan left (offset + 1) start now hs keep a)
        | inr (h', take) ↦
            rw (take, scan) (All-set hs i h' (visit_at-keeps now hs i h' keep a take) a)
      ]

  All-selected :
      (r : BackendRouter) (o : Option (ℕ × List EndpointHealth))
      → All P r.endpoints
      → AllAfter o
      → All P (selected r o).0.endpoints
  unfolding selected
  All-selected r none a b = a
  All-selected r (some (i, hs)) a b = b

  -- What each update of an endpoint keeps, every event keeps.
  All-step :
      (r : BackendRouter) (e : Event)
      → ((now : ℕ) (h h' : EndpointHealth) → visit now h ≡ some h' → P h → P h')
      → ((latency_ms : ℕ) (h : EndpointHealth) → P h → P (record_success latency_ms h))
      → ((latency_ms now : ℕ) (h : EndpointHealth) → P h → P (record_failure r latency_ms now h))
      → ((p : Probe) (h : EndpointHealth) → P h → P (apply_probe r p h))
      → All P r.endpoints
      → All P (step r e).endpoints
  unfolding step select_endpoint mark_success mark_failure check_once
  All-step r (selects now) v s f q a =
      All-selected _ _ a (All-scan (length r.endpoints) 0 r.next_index now r.endpoints (v now) a)
  All-step r (succeeds i latency_ms) v s f q a =
      All-update_at r.endpoints i (record_success latency_ms) (s latency_ms) a
  All-step r (fails i latency_ms now) v s f q a =
      All-update_at r.endpoints i (record_failure r latency_ms now) (f latency_ms now) a
  All-step r (probes ps) v s f q a = All-check_endpoints r ps r.endpoints q a
