-- ===== src/Router/Select/Choice.antt =====
-- What a caller of `select_endpoint` of src/router.rs can rely on.
use rust_llm_inference_gatew.Prelude.{
  ℕ, ◌+◌, ◌^◌, ◌≤◌, ◌<◌, ◌≡◌, refl, ◌↔◌, ◌⊎◌, inl, inr, Result-cases, ◌≢◌, sym, subst, Option, none,
  some, List, ok, err, arith, length, get_elem?, set, get_elem?-set_self, get_elem?-set_ne,
}
use rust_llm_inference_gatew.Backend.{BackendError, unavailable}
use rust_llm_inference_gatew.Text.{lit}
use mathlib.Core.Path.{subst₂}
use rust_llm_inference_gatew.Router.{
  EndpointHealth, BackendRouter, visit_at, scan, selected, select_endpoint,
}
use rust_llm_inference_gatew.Router.Select.{
  IsOpen, tried, Scanned, exhausted, found, scan-Scanned, visit_at-IsOpen, visit_at-not_IsOpen,
  visit_at-closed, visit_at-before, visit-keeps, Skipped, tried-lt, tried-reaches,
}

-- What a selection that takes endpoint `i` guarantees.
pub record Takes (r : BackendRouter) (now i : ℕ) (after : List EndpointHealth) : Type 0 where
  pub in_range : i < length r.endpoints
  pub not_open : ¬ IsOpen now r.endpoints i
  pub offset : ℕ
  pub offset_lt : offset < length r.endpoints
  pub position : i ≡ tried (length r.endpoints) r.next_index offset
  pub first :
      (j : ℕ) → j < offset → IsOpen now r.endpoints (tried (length r.endpoints) r.next_index j)
  pub others : (j : ℕ) → j ≢ i → get_elem? after j ≡ get_elem? r.endpoints j
  -- Its circuit is closed, and if it had been open it starts again without failures.
  pub before : EndpointHealth
  pub health : EndpointHealth
  pub was : get_elem? r.endpoints i ≡ some before
  pub is : get_elem? after i ≡ some health
  pub closed : health.circuit_open_until ≡ none
  pub failures :
      health.consecutive_failures
      ≡ (elim before.circuit_open_until [ none ↦ before.consecutive_failures | some until ↦ 0 ])
  pub latency : health.last_latency_ms ≡ before.last_latency_ms

selected-ok :
    (r : BackendRouter) (o : Option (ℕ × List EndpointHealth)) (i : ℕ)
    → (selected r o).1 ≡ ok i
    → o ≡ some (i, (selected r o).0.endpoints)
unfolding selected
selected-ok r none i h = cc
selected-ok r (some (j, hs)) i h = ground arith

module _ (r : BackendRouter) (now : ℕ) where
  abbrev all_scanned : Option (ℕ × List EndpointHealth)
  all_scanned = scan (length r.endpoints) 0 r.next_index now r.endpoints

  abbrev at : ℕ → ℕ
  at k = tried (length r.endpoints) r.next_index k

  found-Takes :
      (k : ℕ) (h : EndpointHealth)
      → k < length r.endpoints
      → visit_at now r.endpoints (at k) ≡ some h
      → Skipped r.next_index now r.endpoints 0 k
      → Takes r now (at k) (set r.endpoints (at k) h)
  found-Takes k h lt v s =
      let was = visit_at-before now r.endpoints (at k) h v in
      record {
        in_range = (visit_at-closed now r.endpoints (at k) h v).1;
        not_open = visit_at-not_IsOpen now r.endpoints (at k) h v;
        offset = k;
        offset_lt = lt;
        position = refl;
        first = λ j below.
            visit_at-IsOpen now r.endpoints (at j) (tried-lt _ r.next_index j (omega arith))
              (s j (omega arith) below);
        others = λ j n. get_elem?-set_ne r.endpoints (at k) j h (λ e. n (sym e));
        before = was.0;
        health = h;
        was = was.1;
        is = get_elem?-set_self r.endpoints (at k) h (visit_at-closed now r.endpoints (at k) h v).1;
        closed = (visit_at-closed now r.endpoints (at k) h v).0;
        failures = (visit-keeps now was.0 h was.2).0;
        latency = (visit-keeps now was.0 h was.2).1;
      }

  takes :
      (i : ℕ) (after : List EndpointHealth) {o : Option (ℕ × List EndpointHealth)}
      → Scanned r.next_index now r.endpoints 0 (length r.endpoints) o
      → o ≡ some (i, after)
      → Takes r now i after
  takes i after (exhausted e s) h = cc
  takes i after (found k health le lt v e s) h =
      subst₂ (Takes r now) (ground arith) (ground arith) (found-Takes k health lt v s)

  all_scanned-Scanned : Scanned r.next_index now r.endpoints 0 (length r.endpoints) all_scanned
  all_scanned-Scanned =
      subst (λ n. Scanned r.next_index now r.endpoints 0 n all_scanned) (omega arith)
        (scan-Scanned (length r.endpoints) 0 r.next_index now r.endpoints)

  -- A selection that succeeds takes the first endpoint, in the order of the round, whose circuit is
  -- not open, leaves it with its circuit closed, and does not touch the others.
  pub select_endpoint-Takes :
      (i : ℕ) → (select_endpoint r now).1 ≡ ok i → Takes r now i (select_endpoint r now).0.endpoints
  unfolding select_endpoint
  select_endpoint-Takes i h = takes i _ all_scanned-Scanned (selected-ok _ all_scanned i h)

  exhausted-all-IsOpen :
      r.next_index + length r.endpoints ≤ 2 ^ 64
      → Skipped r.next_index now r.endpoints 0 (length r.endpoints)
      → (i : ℕ) → i < length r.endpoints
      → IsOpen now r.endpoints i
  exhausted-all-IsOpen room s i lt =
      let (k, below, e) = tried-reaches (length r.endpoints) r.next_index i lt room in
      subst (IsOpen now r.endpoints) e
        (visit_at-IsOpen now r.endpoints (at k) (rw e lt) (s k (omega arith) below))

  fails-all-IsOpen :
      {o : Option (ℕ × List EndpointHealth)}
      → r.next_index + length r.endpoints ≤ 2 ^ 64
      → Scanned r.next_index now r.endpoints 0 (length r.endpoints) o
      → o ≡ none
      → (i : ℕ) → i < length r.endpoints
      → IsOpen now r.endpoints i
  fails-all-IsOpen room (exhausted e s) h = exhausted-all-IsOpen room s
  fails-all-IsOpen room (found k health le lt v e s) h = cc

  all_open-fails :
      {o : Option (ℕ × List EndpointHealth)}
      → Scanned r.next_index now r.endpoints 0 (length r.endpoints) o
      → ((i : ℕ) → i < length r.endpoints → IsOpen now r.endpoints i)
      → o ≡ none
  all_open-fails (exhausted e s) h = e
  all_open-fails (found k health le lt v e s) h = absurd (
      visit_at-not_IsOpen now r.endpoints (at k) health v
        (h (at k) (visit_at-closed now r.endpoints (at k) health v).1))

selected-err :
    (r : BackendRouter) (o : Option (ℕ × List EndpointHealth)) (e : BackendError)
    → (selected r o).1 ≡ err e
    → o ≡ none
unfolding selected
selected-err r none e h = refl
selected-err r (some x) e h = cc

-- While the counter of the round does not wrap, a selection fails exactly when the circuit of every
-- endpoint is open.
pub select_endpoint-fails_iff :
    (r : BackendRouter) (now : ℕ)
    → r.next_index + length r.endpoints ≤ 2 ^ 64
    → ((select_endpoint r now).1 ≡ err (unavailable (lit "all backends are currently unhealthy")))
      ↔ ((i : ℕ) → i < length r.endpoints → IsOpen now r.endpoints i)
unfolding select_endpoint
select_endpoint-fails_iff r now room = (
  λ h.
      fails-all-IsOpen r now room (all_scanned-Scanned r now)
        (selected-err _ (all_scanned r now) _ h),
  λ h. rw (all_open-fails r now (all_scanned-Scanned r now) h, selected),
)

-- While the counter of the round does not wrap, a selection either takes the first endpoint, in the
-- order of the round, whose circuit is not open, leaves it with its circuit closed and, if it had been
-- open, with no failures, and does not touch the others, or it fails, and then the circuit of every
-- endpoint is open.
pub select_endpoint-decides :
    (r : BackendRouter) (now : ℕ)
    → r.next_index + length r.endpoints ≤ 2 ^ 64
    → let (after, chosen) = select_endpoint r now in
      ((i : ℕ) × (chosen ≡ ok i) × Takes r now i after.endpoints)
      ⊎ ((chosen ≡ err (unavailable (lit "all backends are currently unhealthy")))
          × ((i : ℕ) → i < length r.endpoints → IsOpen now r.endpoints i))
unfolding select_endpoint
select_endpoint-decides r now room = elim (Result-cases (select_endpoint r now).1) [
  | inl (i, chosen) ↦ inl (i, chosen, select_endpoint-Takes r now i chosen)
  | inr (e, failed) ↦
      let all_open =
        fails-all-IsOpen r now room (all_scanned-Scanned r now)
          (selected-err _ (all_scanned r now) e failed) in
      inr ((select_endpoint-fails_iff r now room).1 all_open, all_open)
]
