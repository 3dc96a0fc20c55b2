-- ===== src/Router/Circuit/Cooldown.antt =====
-- An endpoint whose circuit of src/router.rs is open gets no requests until the circuit may close.
use rust_llm_inference_gatew.Prelude.{
  ℕ, zero, suc, ◌+◌, ◌≤◌, ◌<◌, ◌≡◌, ◌≢◌, refl, ◌⊎◌, inl, inr, none, some, List, [], ◌∷◌, arith,
  get_elem?, leb, saturating_add_u32, All, Bool-cases, subst, sym, ap, ◌∙◌, false, Option, ok, err,
  ℕ_discrete, Result,
}
use rust_llm_inference_gatew.Backend.{BackendError}
use rust_llm_inference_gatew.Router.{
  EndpointHealth, BackendRouter, Probe, select_endpoint, selected, record_success, record_failure,
  mark_success, mark_failure, update_at, apply_probe, check_once, check_endpoints,
}
use rust_llm_inference_gatew.Router.Select.{IsOpen}
use rust_llm_inference_gatew.Router.Select.Choice.{select_endpoint-Takes}
use rust_llm_inference_gatew.Router.Circuit.{Event, selects, succeeds, fails, probes, step, run}

abbrev get_elem?_at : ℕ → List EndpointHealth → Option EndpointHealth
get_elem?_at i hs = get_elem? hs i

-- The circuit of endpoint `i` stays open at least until `until`.
pub record OpenUntil (until : ℕ) (endpoints : List EndpointHealth) (i : ℕ) : Type 0 where
  pub health : EndpointHealth
  pub closes : ℕ
  pub here : get_elem? endpoints i ≡ some health
  pub opened : health.circuit_open_until ≡ some closes
  pub late : until ≤ closes

-- An event before `until` that is no success of endpoint `i`, by a request or by a health check,
-- and no failure from before the circuit opened.
abbrev pub Quiet : ℕ → ℕ → ℕ → Event → Type 0
Quiet cooldown until i (selects now) = now < until
Quiet cooldown until i (succeeds j latency_ms) = j ≢ i
Quiet cooldown until i (fails j latency_ms now) = until ≤ now + cooldown
Quiet cooldown until i (probes ps) =
    (p : Probe) → get_elem? ps i ≡ some p → (p.answered ≡ false) × (until ≤ p.at + cooldown)

pub get_elem?-update_at_ne :
    (hs : List EndpointHealth) (i j : ℕ) (f : EndpointHealth → EndpointHealth)
    → j ≢ i
    → get_elem? (update_at hs j f) i ≡ get_elem? hs i
unfolding update_at
get_elem?-update_at_ne [] i j f n = refl
get_elem?-update_at_ne (h ∷ hs) zero zero f n = absurd (n refl)
get_elem?-update_at_ne (h ∷ hs) (suc i) zero f n = refl
get_elem?-update_at_ne (h ∷ hs) zero (suc j) f n = refl
get_elem?-update_at_ne (h ∷ hs) (suc i) (suc j) f n =
    get_elem?-update_at_ne hs i j f (λ e. n (ap suc e))

pub get_elem?-update_at :
    (hs : List EndpointHealth) (i : ℕ) (f : EndpointHealth → EndpointHealth) (h : EndpointHealth)
    → get_elem? hs i ≡ some h
    → get_elem? (update_at hs i f) i ≡ some (f h)
unfolding update_at
get_elem?-update_at [] i f h e = absurd (cc)
get_elem?-update_at (x ∷ hs) zero f h e = ground arith
get_elem?-update_at (x ∷ hs) (suc i) f h e = get_elem?-update_at hs i f h e

pub record_failure-OpenUntil :
    (r : BackendRouter) (latency_ms now until closes : ℕ) (h : EndpointHealth)
    → h.circuit_open_until ≡ some closes
    → until ≤ closes
    → until ≤ now + r.cooldown
    → (c : ℕ) × ((record_failure r latency_ms now h).circuit_open_until ≡ some c) × (until ≤ c)
unfolding record_failure
record_failure-OpenUntil r latency_ms now until closes h e l k =
    elim (Bool-cases (leb r.failure_threshold (saturating_add_u32 h.consecutive_failures 1))) [
      | inl trips ↦ (now + r.cooldown, rw trips, k)
      | inr below ↦ (closes, rw below e, l)
    ]

pub apply_probe-OpenUntil :
    (r : BackendRouter) (p : Probe) (until closes : ℕ) (h : EndpointHealth)
    → h.circuit_open_until ≡ some closes
    → until ≤ closes
    → p.answered ≡ false
    → until ≤ p.at + r.cooldown
    → (c : ℕ) × ((apply_probe r p h).circuit_open_until ≡ some c) × (until ≤ c)
unfolding apply_probe
apply_probe-OpenUntil r p until closes h e l bad k =
    elim (Bool-cases (leb r.failure_threshold (saturating_add_u32 h.consecutive_failures 1))) [
      | inl trips ↦ (p.at + r.cooldown, rw (bad, trips), k)
      | inr below ↦ (closes, rw (bad, below) e, l)
    ]

get_elem?-check_endpoints :
    (r : BackendRouter) (ps : List Probe) (hs : List EndpointHealth) (i : ℕ) (h : EndpointHealth)
    → get_elem? hs i ≡ some h
    → ((get_elem? ps i ≡ none) × (get_elem? (check_endpoints r ps hs) i ≡ some h))
      ⊎ ((p : Probe) × (get_elem? ps i ≡ some p)
          × (get_elem? (check_endpoints r ps hs) i ≡ some (apply_probe r p h)))
unfolding check_endpoints
get_elem?-check_endpoints r ps [] i h e = absurd (cc)
get_elem?-check_endpoints r [] (x ∷ hs) i h e = inl (refl, e)
get_elem?-check_endpoints r (p ∷ ps) (x ∷ hs) zero h e = inr (p, refl, ground arith)
get_elem?-check_endpoints r (p ∷ ps) (x ∷ hs) (suc i) h e = get_elem?-check_endpoints r ps hs i h e

selected-err_same :
    (r : BackendRouter) (o : Option (ℕ × List EndpointHealth)) (e : BackendError)
    → (selected r o).1 ≡ err e
    → (selected r o).0.endpoints ≡ r.endpoints
unfolding selected
selected-err_same r none e h = refl
selected-err_same r (some x) e h = cc

pub IsOpen-of_until :
    {until : ℕ} {hs : List EndpointHealth} {i : ℕ} (now : ℕ)
    → now < until
    → OpenUntil until hs i
    → IsOpen now hs i
IsOpen-of_until now lt o = record {
  health = o.health;
  until = o.closes;
  here = o.here;
  opened = o.opened;
  later = omega (arith, o.late);
}

pub moved :
    {until i : ℕ} {hs hs' : List EndpointHealth}
    → get_elem? hs' i ≡ get_elem? hs i
    → OpenUntil until hs i
    → OpenUntil until hs' i
moved e o = record {
  health = o.health;
  closes = o.closes;
  here = e ∙ o.here;
  opened = o.opened;
  late = o.late;
}

pub renewed :
    {until i : ℕ} {hs : List EndpointHealth} (h : EndpointHealth)
    → get_elem? hs i ≡ some h
    → (c : ℕ) × (h.circuit_open_until ≡ some c) × (until ≤ c)
    → OpenUntil until hs i
renewed h here (c, opened, late) = record {
  health = h;
  closes = c;
  here = here;
  opened = opened;
  late = late;
}

selects-OpenUntil :
    (r : BackendRouter) (now until i : ℕ) (x : Result ℕ BackendError)
    → (select_endpoint r now).1 ≡ x
    → now < until
    → OpenUntil until r.endpoints i
    → OpenUntil until (select_endpoint r now).0.endpoints i
selects-OpenUntil r now until i (ok k) e lt o =
    let t = select_endpoint-Takes r now k e in
    moved
      (t.others i (λ (same : i ≡ k).
        t.not_open (subst (IsOpen now r.endpoints) same (IsOpen-of_until now lt o))))
      o
selects-OpenUntil r now until i (err x) e lt o =
    moved {hs = r.endpoints}
      (unfold select_endpoint in ap (get_elem?_at i) (selected-err_same _ _ x e)) o

step-OpenUntil :
    (r : BackendRouter) (v : Event) (until i : ℕ)
    → Quiet r.cooldown until i v
    → OpenUntil until r.endpoints i
    → OpenUntil until (step r v).endpoints i
unfolding step mark_success mark_failure check_once
step-OpenUntil r (selects now) until i q o = selects-OpenUntil r now until i _ refl q o
step-OpenUntil r (succeeds j latency_ms) until i q o =
    moved (get_elem?-update_at_ne r.endpoints i j (record_success latency_ms) q) o
step-OpenUntil r (fails j latency_ms now) until i q o = elim (ℕ_discrete i j) [
  | yes same ↦
      renewed (record_failure r latency_ms now o.health)
        (subst
          (λ k.
            get_elem? (update_at r.endpoints k (record_failure r latency_ms now)) i
            ≡ some (record_failure r latency_ms now o.health))
          same
          (get_elem?-update_at r.endpoints i (record_failure r latency_ms now) o.health o.here))
        (record_failure-OpenUntil r latency_ms now until o.closes o.health o.opened o.late q)
  | no n ↦
      moved
        (get_elem?-update_at_ne r.endpoints i j (record_failure r latency_ms now) (λ e. n (sym e)))
        o
]
step-OpenUntil r (probes ps) until i q o =
    elim (get_elem?-check_endpoints r ps r.endpoints i o.health o.here) [
      | inl (_, same) ↦ moved (same ∙ sym o.here) o
      | inr (p, at, now_) ↦
          renewed (apply_probe r p o.health) now_ (
            apply_probe-OpenUntil r p until o.closes o.health o.opened o.late (q p at).0 (q p at).1)
    ]

selected-cooldown :
    (r : BackendRouter) (o : Option (ℕ × List EndpointHealth))
    → (selected r o).0.cooldown ≡ r.cooldown
unfolding selected
selected-cooldown r none = refl
selected-cooldown r (some x) = refl

step-cooldown : (r : BackendRouter) (e : Event) → (step r e).cooldown ≡ r.cooldown
unfolding step select_endpoint mark_success mark_failure check_once
step-cooldown r (selects now) = selected-cooldown _ _
step-cooldown r (succeeds i latency_ms) = refl
step-cooldown r (fails i latency_ms now) = refl
step-cooldown r (probes ps) = refl

run-OpenUntil :
    (r : BackendRouter) (es : List Event) (cooldown until i : ℕ)
    → r.cooldown ≡ cooldown
    → All (Quiet cooldown until i) es
    → OpenUntil until r.endpoints i
    → OpenUntil until (run r es).endpoints i
unfolding run
run-OpenUntil r [] cooldown until i e q o = o
run-OpenUntil r (v ∷ es) cooldown until i e q o =
    run-OpenUntil (step r v) es cooldown until i (step-cooldown r v ∙ e) q.1
      (step-OpenUntil r v until i (subst (λ c. Quiet c until i v) (sym e) q.0) o)

-- While the circuit of an endpoint is open until `until`, and whatever else happens before then, short
-- of a success of that endpoint, no selection before `until` takes it.
run-never_selects :
    (r : BackendRouter) (es : List Event) (until i now : ℕ)
    → OpenUntil until r.endpoints i
    → All (Quiet r.cooldown until i) es
    → now < until
    → (select_endpoint (run r es) now).1 ≢ ok i
run-never_selects r es until i now o q lt e =
    (select_endpoint-Takes (run r es) now i e).not_open
      (IsOpen-of_until now lt (run-OpenUntil r es r.cooldown until i refl q o))
