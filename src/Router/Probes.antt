-- ===== src/Router/Probes.antt =====
-- Health checks of src/router.rs that all fail, and what they do to requests.
pub mod Outage
use rust_llm_inference_gatew.Prelude.{
  ℕ, zero, suc, ◌+◌, ◌^◌, ◌≤◌, ◌<◌, ◌≡◌, refl, sym, subst, ap, ◌∙◌, Bool, true, false, some, none,
  err, List, [], ◌∷◌, ◌++◌, All, get_elem?-some, arith, length, u32_max, get_elem?, leb, Bool-cases,
  inl, inr, if◌then◌else◌, replicate,
}
use rust_llm_inference_gatew.Text.{Text, lit}
use rust_llm_inference_gatew.Backend.{unavailable}
use rust_llm_inference_gatew.Router.{
  EndpointHealth, BackendRouter, Probe, default_health, new_router, apply_probe, check_endpoints,
  check_once, select_endpoint,
}
use rust_llm_inference_gatew.Router.Select.{IsOpen}
use rust_llm_inference_gatew.Router.Select.Choice.{select_endpoint-fails_iff}

-- Successive health checks.
pub check_rounds : BackendRouter → List (List Probe) → BackendRouter
unfolding check_once
check_rounds r [] = r
check_rounds r (probes ∷ rounds) = check_rounds (check_once r probes) rounds

-- A health check of `total` endpoints that fails at each of them, at `t` or later.
pub record Fails (t total : ℕ) (probes : List Probe) : Type 0 where
  pub complete : length probes ≡ total
  pub failed : All (λ p. p.answered ≡ false) probes
  pub late : All (λ p. t ≤ p.at) probes

-- After `k` failures in a row, of which the last was at `t` or later.
record IsFailing (threshold cooldown k t : ℕ) (h : EndpointHealth) : Type 0 where
  counted : k ≤ h.consecutive_failures
  opened :
      threshold ≤ k → (until : ℕ) × (h.circuit_open_until ≡ some until) × (t + cooldown ≤ until)

apply_probe-IsFailing :
    (r : BackendRouter) (k t₀ t : ℕ) (p : Probe) (h : EndpointHealth)
    → p.answered ≡ false
    → t ≤ p.at
    → suc k ≤ u32_max
    → IsFailing r.failure_threshold r.cooldown k t₀ h
    → IsFailing r.failure_threshold r.cooldown (suc k) t (apply_probe r p h)
unfolding apply_probe
apply_probe-IsFailing r k t₀ t p h failed late small f = record {
  counted = rw failed (omega (arith, f.counted));
  opened = λ reached. rw failed (p.at + r.cooldown, ground (arith, f.counted), omega arith);
}

check_endpoints-IsFailing :
    (r : BackendRouter) (k t₀ t : ℕ) (probes : List Probe) (hs : List EndpointHealth)
    → suc k ≤ u32_max
    → length probes ≡ length hs
    → All (λ p. p.answered ≡ false) probes
    → All (λ p. t ≤ p.at) probes
    → All (IsFailing r.failure_threshold r.cooldown k t₀) hs
    → All (IsFailing r.failure_threshold r.cooldown (suc k) t) (check_endpoints r probes hs)
      × (length (check_endpoints r probes hs) ≡ length hs)
unfolding check_endpoints
check_endpoints-IsFailing r k t₀ t probes [] small e v w f = (tt, refl)
check_endpoints-IsFailing r k t₀ t [] (h ∷ hs) small e v w f = absurd (omega arith)
check_endpoints-IsFailing r k t₀ t (p ∷ probes) (h ∷ hs) small e (v, vs) (w, ws) (f, fs) =
    let (rest, size) = check_endpoints-IsFailing r k t₀ t probes hs small (omega arith) vs ws fs in
    ((apply_probe-IsFailing r k t₀ t p h v w small f, rest), omega arith)

-- The endpoints of a router after `k` rounds that failed.
record AreFailing (total k t : ℕ) (r : BackendRouter) : Type 0 where
  each : All (IsFailing r.failure_threshold r.cooldown k t) r.endpoints
  size : length r.endpoints ≡ total
  counter : r.next_index ≡ 0

check_once-AreFailing :
    (total k t₀ t : ℕ) (r : BackendRouter) (probes : List Probe)
    → suc k ≤ u32_max
    → Fails t total probes
    → AreFailing total k t₀ r
    → AreFailing total (suc k) t (check_once r probes)
unfolding check_once
check_once-AreFailing total k t₀ t r probes small f a =
    let (each, size) =
      check_endpoints-IsFailing r k t₀ t probes r.endpoints small (f.complete ∙ sym a.size) f.failed
        f.late a.each in
    record { each = each; size = size ∙ a.size; counter = a.counter }

check_rounds-AreFailing :
    (total k t₀ t : ℕ) (r : BackendRouter) (rounds : List (List Probe)) (last : List Probe)
    → k + length rounds + 1 ≤ u32_max
    → All (Fails 0 total) rounds
    → Fails t total last
    → AreFailing total k t₀ r
    → AreFailing total (suc (k + length rounds)) t (check_rounds r (rounds ++ last ∷ []))
unfolding check_rounds
check_rounds-AreFailing total k t₀ t r [] last small v f a =
    subst (λ n. AreFailing total n t (check_once r last)) (omega arith)
      (check_once-AreFailing total k t₀ t r last (omega arith) f a)
check_rounds-AreFailing total k t₀ t r (probes ∷ rounds) last small (g, v) f a =
    subst (λ n. AreFailing total n t (check_rounds (check_once r probes) (rounds ++ last ∷ [])))
      (omega arith)
      (check_rounds-AreFailing total (suc k) 0 t (check_once r probes) rounds last (omega arith) v f
        (check_once-AreFailing total k t₀ 0 r probes (omega arith) g a))

new_router-AreFailing : (total : ℕ) → AreFailing total 0 0 (new_router total)
unfolding new_router
new_router-AreFailing total = record {
  each = each_default total;
  size = length_replicate total;
  counter = refl;
}
  where
    each_default : (n : ℕ) → All (IsFailing 3 20000 0 0) (replicate n default_health)
    each_default zero = tt
    each_default (suc n) =
        (record { counted = omega arith; opened = λ h. absurd (omega arith) }, each_default n)

    length_replicate : (n : ℕ) → length (replicate n default_health) ≡ n
    length_replicate zero = refl
    length_replicate (suc n) = ap suc (length_replicate n)

check_rounds-settings :
    (r : BackendRouter) (rounds : List (List Probe))
    → ((check_rounds r rounds).failure_threshold ≡ r.failure_threshold)
      × ((check_rounds r rounds).cooldown ≡ r.cooldown)
unfolding check_rounds check_once
check_rounds-settings r [] = (refl, refl)
check_rounds-settings r (probes ∷ rounds) = check_rounds-settings (check_once r probes) rounds

new_router-settings :
    (total : ℕ) → ((new_router total).failure_threshold ≡ 3) × ((new_router total).cooldown ≡ 20000)
unfolding new_router
new_router-settings total = (refl, refl)

All-get_elem? :
    (P : EndpointHealth → Type 0) (hs : List EndpointHealth) (i : ℕ) (h : EndpointHealth)
    → All P hs
    → get_elem? hs i ≡ some h
    → P h
All-get_elem? P [] i h v e = absurd (cc)
All-get_elem? P (x ∷ hs) zero h (p, v) e = let same : x ≡ h = cc in subst P same p
All-get_elem? P (x ∷ hs) (suc i) h (p, v) e = All-get_elem? P hs i h v e

pub check_rounds-denies :
    (total t now : ℕ) (rounds : List (List Probe)) (last : List Probe)
    → total ≤ 2 ^ 64
    → length rounds + 1 ≤ u32_max
    → 2 ≤ length rounds
    → All (Fails 0 total) rounds
    → Fails t total last
    → now < t + 20000
    → (select_endpoint (check_rounds (new_router total) (rounds ++ last ∷ [])) now).1
      ≡ err (unavailable (lit "all backends are currently unhealthy"))
check_rounds-denies total t now rounds last fits small enough v f early =
    let r = check_rounds (new_router total) (rounds ++ last ∷ []) in
    let (threshold, cooldown) = check_rounds-settings (new_router total) (rounds ++ last ∷ []) in
    let a =
      check_rounds-AreFailing total 0 0 t (new_router total) rounds last (omega (arith, small)) v f
        (new_router-AreFailing total) in
    (select_endpoint-fails_iff r now (omega (arith, fits, a.size, a.counter))).1 (λ i inside.
      let (h, here) = get_elem?-some r.endpoints i inside in
      let failing =
        All-get_elem? (IsFailing r.failure_threshold r.cooldown (suc (0 + length rounds)) t)
          r.endpoints i h a.each here in
      let (until, opened, late) =
        failing.opened (omega (arith, threshold, new_router-settings total, enough)) in
      record {
        health = h;
        until = until;
        here = here;
        opened = opened;
        later = omega (arith, late, cooldown, new_router-settings total, early);
      })
