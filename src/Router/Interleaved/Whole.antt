-- ===== src/Router/Interleaved/Whole.antt =====
-- A selection of src/router.rs that nothing interrupts is `select_endpoint`.
use rust_llm_inference_gatew.Prelude.{
  ℕ, zero, suc, ◌+◌, ◌%◌, ◌==◌, ◌≡◌, refl, sym, ap, subst, ◌∙◌, arith, true, false, Option, none,
  some, List, ◌∷◌, length, set, replicate, update, update_self, as_u64, Option-cases, inl, inr,
  Result, ok, err,
}
use rust_llm_inference_gatew.Backend.{BackendError}
use rust_llm_inference_gatew.Router.{
  EndpointHealth, BackendRouter, visit_at, scan, selected, select_endpoint,
}
use rust_llm_inference_gatew.Router.Interleaved.{
  Task, idle, trying, took, refused, System, begins, visits, begin_by, begin, try_next, visit_by,
  step, run,
}

-- A caller that is done visits no more.
run_took :
    (n caller endpoint : ℕ) (s : System)
    → s.task caller ≡ took endpoint
    → run s (replicate n (visits caller)) ≡ s
unfolding run step visit_by
run_took zero caller endpoint s at = refl
run_took (suc n) caller endpoint s at =
    ap (λ t. run (visit_by s caller t) (replicate n (visits caller))) at
    ∙ run_took n caller endpoint s at

-- What the loop makes of the system.
abbrev Ends : ℕ → BackendRouter → Option (ℕ × List EndpointHealth) → System → Type 0
Ends caller r none s = (s.router ≡ r) × (s.task caller ≡ refused)
Ends caller r (some (index, endpoints)) s =
    (s.router ≡ record r { endpoints = endpoints }) × (s.task caller ≡ took index)

-- The scan, as the visit of its next endpoint goes.
scan-skips :
    (left offset start now : ℕ) (endpoints : List EndpointHealth)
    → visit_at now endpoints (as_u64 (start + offset) % length endpoints) ≡ none
    → scan (suc left) offset start now endpoints ≡ scan left (offset + 1) start now endpoints
unfolding scan
scan-skips left offset start now endpoints skip = rw (scan, skip) refl

scan-visits :
    (left offset start now : ℕ) (endpoints : List EndpointHealth) (h : EndpointHealth)
    → visit_at now endpoints (as_u64 (start + offset) % length endpoints) ≡ some h
    → scan (suc left) offset start now endpoints
      ≡ some (
        as_u64 (start + offset) % length endpoints,
        set endpoints (as_u64 (start + offset) % length endpoints) h,
      )
unfolding scan
scan-visits left offset start now endpoints h visited = rw (scan, visited) refl

loop :
    (left caller start offset now : ℕ) (s : System)
    → offset + left ≡ length s.router.endpoints
    → Ends caller s.router
        (scan left offset start now s.router.endpoints)
        (run (try_next s caller start offset now) (replicate left (visits caller)))
unfolding run step visit_by try_next scan
loop zero caller start offset now s e =
    let over : (offset == length s.router.endpoints) ≡ true = ground arith in
    rw over (refl, update_self s.task caller refused)
loop (suc left) caller start offset now s e =
    let index = as_u64 (start + offset) % length s.router.endpoints in
    let more : (offset == length s.router.endpoints) ≡ false = ground arith in
    elim (Option-cases (visit_at now s.router.endpoints index)) [
      | inl skip ↦
          let s' : System = record s {
            task = update s.task caller (trying start (offset + 1) now);
          } in
          rw (scan-skips left offset start now s.router.endpoints skip, more, skip)
            (subst
              (λ t.
                Ends caller s.router (scan left (offset + 1) start now s.router.endpoints)
                  (run (visit_by s' caller t) (replicate left (visits caller))))
              (sym (update_self s.task caller (trying start (offset + 1) now)))
              (loop left caller start (offset + 1) now s' (omega arith)))
      | inr (h, visited) ↦
          let s' : System = record s {
            router = record s.router { endpoints = set s.router.endpoints index h };
            task = update s.task caller (took index);
          } in
          let held : s'.task caller ≡ took index = update_self s.task caller (took index) in
          rw (scan-visits left offset start now s.router.endpoints h visited, more, visited)
            (subst (Ends caller s.router (some (index, set s.router.endpoints index h)))
              (sym (run_took (suc left) caller index s' held)) (refl, held))
    ]

-- What `select_endpoint` answers, as the caller's task.
abbrev sent : Result ℕ BackendError → Task
sent (ok endpoint) = took endpoint
sent (err e) = refused

selected-Ends :
    (caller : ℕ) (r : BackendRouter) (o : Option (ℕ × List EndpointHealth)) (s : System)
    → Ends caller r o s
    → (s.router ≡ (selected r o).0) × (s.task caller ≡ sent (selected r o).1)
unfolding selected
selected-Ends caller r none s at = at
selected-Ends caller r (some (index, endpoints)) s at = at

-- A caller who begins and then visits the endpoints with no other event in between, a visit for each
-- and one more, leaves the router as `select_endpoint` does, and is sent where it says.
run-uninterrupted :
    (s : System) (caller now : ℕ)
    → s.task caller ≡ idle
    → let s' =
        run s (begins caller now ∷ replicate (suc (length s.router.endpoints)) (visits caller)) in
      (s'.router ≡ (select_endpoint s.router now).0)
      × (s'.task caller ≡ sent (select_endpoint s.router now).1)
unfolding run step begin_by begin visit_by select_endpoint
run-uninterrupted s caller now at =
    let s0 = begin s caller now in
    let total = length s.router.endpoints in
    subst
      (λ t.
        let s' = run (begin_by s caller now t) (replicate (suc total) (visits caller)) in
        (s'.router ≡ (select_endpoint s.router now).0)
        × (s'.task caller ≡ sent (select_endpoint s.router now).1))
      (sym at)
      (subst
        (λ t.
          let s' = run (visit_by s0 caller t) (replicate total (visits caller)) in
          (s'.router ≡ (select_endpoint s.router now).0)
          × (s'.task caller ≡ sent (select_endpoint s.router now).1))
        (sym (update_self s.task caller (trying s.router.next_index 0 now)))
        (selected-Ends caller s0.router _ _
          (loop total caller s.router.next_index 0 now s0 (omega arith))))
