-- ===== src/Router/Interleaved/Cooldown.antt =====
-- No request reaches an endpoint of src/router.rs whose circuit is open, though selections overlap.
use rust_llm_inference_gatew.Prelude.{
  ℕ, ◌+◌, ◌%◌, ◌==◌, ◌≤◌, ◌<◌, ◌≡◌, ◌≢◌, refl, sym, subst, some, List, [], ◌∷◌, length, get_elem?,
  set, get_elem?-set_ne, update, update_all, as_u64, false, Bool-cases, Option-cases, inl, inr, All,
  ℕ_discrete,
}
use rust_llm_inference_gatew.Router.{
  EndpointHealth, Probe, visit_at, apply_probe, record_success, record_failure, update_at,
  mark_success, mark_failure,
}
use rust_llm_inference_gatew.Router.Select.{IsOpen, visit_at-not_IsOpen}
use rust_llm_inference_gatew.Router.Circuit.Cooldown.{
  OpenUntil, moved, renewed, get_elem?-update_at_ne, get_elem?-update_at, record_failure-OpenUntil,
  apply_probe-OpenUntil, IsOpen-of_until,
}
use rust_llm_inference_gatew.Router.Interleaved.{
  Task, idle, trying, took, refused, System, Event, begins, visits, succeeds, fails, probes,
  begin_by, begin, try_next, visit_by, succeed_by, fail_by, probe_one, step, run,
}

-- The circuit of endpoint `i` is open until `until`; the callers of `Holder` may have been at its
-- backend before.
module _ (until i cooldown : ℕ) (Holder : ℕ → Type 0) where
  -- A selection began before `until`, and only a holder is at the backend of `i`.
  abbrev pub IsKept : ℕ → Task → Type 0
  IsKept caller idle = Unit
  IsKept caller (trying start offset now) = now < until
  IsKept caller (took endpoint) = endpoint ≡ i → Holder caller
  IsKept caller refused = Unit

  -- Events before `until`, without a success of endpoint `i`, by a holder or by a health check, and
  -- without a failure from before the circuit opened.
  abbrev pub IsQuiet : Event → Type 0
  IsQuiet (begins caller now) = now < until
  IsQuiet (visits caller) = Unit
  IsQuiet (succeeds caller latency_ms) = ¬ Holder caller
  IsQuiet (fails caller latency_ms now) = Holder caller → until ≤ now + cooldown
  IsQuiet (probes endpoint p) = endpoint ≡ i → (p.answered ≡ false) × (until ≤ p.at + cooldown)

  pub record IsShut (s : System) : Type 0 where
    pub open_until : OpenUntil until s.router.endpoints i
    pub kept : (caller : ℕ) → IsKept caller (s.task caller)
    pub same_cooldown : s.router.cooldown ≡ cooldown

  module _ (s : System) (v : IsShut s) (caller : ℕ) where
    open v use {open_until, kept, same_cooldown}

    task-IsShut : (t : Task) → IsKept caller t → IsShut (record s { task = update s.task caller t })
    task-IsShut t k = record {
      open_until = open_until;
      kept = λ c. update_all s.task caller t IsKept c (λ _. k) (λ _. kept c);
      same_cooldown = same_cooldown;
    }

    begin-IsShut : (now : ℕ) → now < until → IsShut (begin s caller now)
    unfolding begin
    begin-IsShut now lt = record {
      open_until = open_until;
      kept = λ c.
          update_all s.task caller (trying s.router.next_index 0 now) IsKept c (λ _. lt)
            (λ _. kept c);
      same_cooldown = same_cooldown;
    }

    begin_by-IsShut : (now : ℕ) (t : Task) → now < until → IsShut (begin_by s caller now t)
    unfolding begin_by
    begin_by-IsShut now idle lt = begin-IsShut now lt
    begin_by-IsShut now (trying start offset began) lt = v
    begin_by-IsShut now (took endpoint) lt = v
    begin_by-IsShut now refused lt = begin-IsShut now lt

    took-IsShut :
        (index now : ℕ) (h : EndpointHealth)
        → now < until
        → visit_at now s.router.endpoints index ≡ some h
        → IsShut (record {
          router = record s.router { endpoints = set s.router.endpoints index h };
          task = update s.task caller (took index);
        })
    took-IsShut index now h lt visited =
        let other : index ≢ i = λ same.
          visit_at-not_IsOpen now s.router.endpoints index h visited (
            subst (IsOpen now s.router.endpoints) (sym same) (IsOpen-of_until now lt open_until)) in
        record {
          open_until = moved (get_elem?-set_ne s.router.endpoints index i h other) open_until;
          kept = λ c.
              update_all s.task caller (took index) IsKept c (λ _ same. absurd (other same))
                (λ _. kept c);
          same_cooldown = same_cooldown;
        }

    try_next-IsShut :
        (start offset now : ℕ) → now < until → IsShut (try_next s caller start offset now)
    unfolding try_next
    try_next-IsShut start offset now lt = elim (Bool-cases (offset == length s.router.endpoints)) [
      | inl over ↦ rw over (task-IsShut refused tt)
      | inr more ↦
          let index = as_u64 (start + offset) % length s.router.endpoints in
          elim (Option-cases (visit_at now s.router.endpoints index)) [
            | inl skip ↦ rw (more, skip) (task-IsShut (trying start (offset + 1) now) lt)
            | inr (h, visited) ↦ rw (more, visited) (took-IsShut index now h lt visited)
          ]
    ]

    visit_by-IsShut : (t : Task) → IsKept caller t → IsShut (visit_by s caller t)
    unfolding visit_by
    visit_by-IsShut idle k = v
    visit_by-IsShut (trying start offset now) lt = try_next-IsShut start offset now lt
    visit_by-IsShut (took endpoint) k = v
    visit_by-IsShut refused k = v

    succeed_by-IsShut :
        (latency_ms : ℕ) (t : Task)
        → IsKept caller t
        → ¬ Holder caller
        → IsShut (succeed_by s caller latency_ms t)
    unfolding succeed_by mark_success
    succeed_by-IsShut latency_ms idle k n = v
    succeed_by-IsShut latency_ms (trying start offset now) k n = v
    succeed_by-IsShut latency_ms (took endpoint) k n = record {
      open_until =
          moved
            (get_elem?-update_at_ne s.router.endpoints i endpoint (record_success latency_ms)
              (λ same. n (k same)))
            open_until;
      kept = λ c. update_all s.task caller idle IsKept c (λ _. tt) (λ _. kept c);
      same_cooldown = same_cooldown;
    }
    succeed_by-IsShut latency_ms refused k n = v

    -- An update of one endpoint that leaves the circuit of `i` open, if it is `i`.
    update_at-OpenUntil :
        (endpoint : ℕ) (f : EndpointHealth → EndpointHealth)
        → (endpoint ≡ i
            → (c : ℕ) × ((f open_until.health).circuit_open_until ≡ some c) × (until ≤ c))
        → OpenUntil until (update_at s.router.endpoints endpoint f) i
    update_at-OpenUntil endpoint f stays = elim (ℕ_discrete endpoint i) [
      | yes same ↦
          renewed (f open_until.health)
            (subst
              (λ k. get_elem? (update_at s.router.endpoints k f) i ≡ some (f open_until.health))
              (sym same)
              (get_elem?-update_at s.router.endpoints i f open_until.health open_until.here))
            (stays same)
      | no other ↦ moved (get_elem?-update_at_ne s.router.endpoints i endpoint f other) open_until
    ]

    fail_by-IsShut :
        (latency_ms now : ℕ) (t : Task)
        → IsKept caller t
        → (Holder caller → until ≤ now + cooldown)
        → IsShut (fail_by s caller latency_ms now t)
    unfolding fail_by mark_failure
    fail_by-IsShut latency_ms now idle k q = v
    fail_by-IsShut latency_ms now (trying start offset began) k q = v
    fail_by-IsShut latency_ms now (took endpoint) k q = record {
      open_until = update_at-OpenUntil endpoint (record_failure s.router latency_ms now) (λ same.
          record_failure-OpenUntil s.router latency_ms now until open_until.closes open_until.health
            open_until.opened open_until.late
            (subst (λ c. until ≤ now + c) (sym same_cooldown) (q (k same))));
      kept = λ c. update_all s.task caller idle IsKept c (λ _. tt) (λ _. kept c);
      same_cooldown = same_cooldown;
    }
    fail_by-IsShut latency_ms now refused k q = v

    probe_one-IsShut :
        (p : Probe)
        → (caller ≡ i → (p.answered ≡ false) × (until ≤ p.at + cooldown))
        → IsShut (probe_one s caller p)
    unfolding probe_one
    probe_one-IsShut p q = record {
      open_until = update_at-OpenUntil caller (apply_probe s.router p) (λ same.
          apply_probe-OpenUntil s.router p until open_until.closes open_until.health
            open_until.opened open_until.late (q same).0
            (subst (λ c. until ≤ p.at + c) (sym same_cooldown) (q same).1));
      kept = kept;
      same_cooldown = same_cooldown;
    }

  step-IsShut : (s : System) (e : Event) → IsShut s → IsQuiet e → IsShut (step s e)
  unfolding step
  step-IsShut s (begins caller now) v q = begin_by-IsShut s v caller now (s.task caller) q
  step-IsShut s (visits caller) v q = visit_by-IsShut s v caller (s.task caller) (v.kept caller)
  step-IsShut s (succeeds caller latency_ms) v q =
      succeed_by-IsShut s v caller latency_ms (s.task caller) (v.kept caller) q
  step-IsShut s (fails caller latency_ms now) v q =
      fail_by-IsShut s v caller latency_ms now (s.task caller) (v.kept caller) q
  step-IsShut s (probes endpoint p) v q = probe_one-IsShut s v endpoint p q

  run-IsShut : (s : System) (es : List Event) → IsShut s → All IsQuiet es → IsShut (run s es)
  unfolding run
  run-IsShut s [] v q = v
  run-IsShut s (e ∷ es) v q = run-IsShut (step s e) es (step-IsShut s e v q.0) q.1

  -- However the loops of several selections, the outcomes of calls and the health checks interleave
  -- between the locks: while the circuit of endpoint `i` is open until `until`, all selections begin
  -- before that, and short of a success of `i` and of a failure that would shorten it, no caller is
  -- sent to `i` but those who were at its backend already.
  pub run-never_took :
      (s : System) (es : List Event) (caller : ℕ)
      → IsShut s
      → All IsQuiet es
      → ¬ Holder caller
      → (run s es).task caller ≢ took i
  run-never_took s es caller v q n at =
      n (subst (IsKept caller) at ((run-IsShut s es v q).kept caller) refl)
