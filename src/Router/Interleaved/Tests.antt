-- ===== src/Router/Interleaved/Tests.antt =====
-- Runs of src/router.rs between its locks, and the theorem at a concrete input.
use rust_llm_inference_gatew.Prelude.{
  ◌≡◌, ◌≢◌, refl, arith, false, some, List, [], ◌∷◌, update, update_all,
}
use rust_llm_inference_gatew.Router.{default_health, visit_at, update_at, mark_failure, apply_probe}
use rust_llm_inference_gatew.Router.Interleaved.{
  idle, trying, took, System, Event, begins, visits, fails, probes, step, run, visit_by,
}
use rust_llm_inference_gatew.Router.Interleaved.Cooldown.{IsShut, IsKept, run-never_took}

-- The circuit of the first endpoint is open until 20500, while caller 7 is still at its backend.
abbrev one_open : System
one_open = record {
  router = record {
    endpoints =
        record {
          consecutive_failures = 3;
          circuit_open_until = some 20500;
          last_latency_ms = some 80;
        }
        ∷ default_health
        ∷ [];
    next_index = 0;
    failure_threshold = 3;
    cooldown = 20000;
  };
  task = update (λ _. idle) 7 (took 0);
}

-- Two selections overlap, a health check fails, and so do the calls of two callers.
abbrev overlapping : List Event
overlapping =
    begins 1 900
    ∷ visits 1
    ∷ begins 2 950
    ∷ probes 0 (record { answered = false; elapsed = 4; at = 960 })
    ∷ visits 2
    ∷ visits 1
    ∷ fails 1 5 970
    ∷ fails 7 80 1000
    ∷ begins 1 20499
    ∷ visits 1
    ∷ []

one_open-IsShut : IsShut 20500 0 20000 (λ c. c ≡ 7) one_open
one_open-IsShut = record {
  open_until = record {
    health = record {
      consecutive_failures = 3;
      circuit_open_until = some 20500;
      last_latency_ms = some 80;
    };
    closes = 20500;
    here = refl;
    opened = refl;
    late = omega arith;
  };
  kept = λ c.
      update_all (λ _. idle) 7 (took 0) (IsKept 20500 0 20000 (λ c. c ≡ 7)) c (λ _ _. refl)
        (λ _. tt);
  same_cooldown = refl;
}

run-never_took_example : (run one_open overlapping).task 1 ≢ took 0
run-never_took_example =
    run-never_took 20500 0 20000 (λ c. c ≡ 7) one_open overlapping 1 one_open-IsShut
      (
        omega arith,
        (
          tt,
          (
            omega arith,
            (
              (λ _. (refl, omega arith)),
              (
                tt,
                (
                  tt,
                  ((λ same. absurd (omega arith)), ((λ _. omega arith), (omega arith, (tt, tt)))),
                ),
              ),
            ),
          ),
        ),
      )
      (omega arith)

waits : (run one_open overlapping).task 1 ≡ trying 2 1 20499
unfolding run step visit_by visit_at update_at mark_failure apply_probe
waits = refl
