-- ===== src/Router/Interleaved.antt =====
-- The requests and the health checks of src/router.rs, interleaved in any order between the locks of the
-- endpoints.
pub mod Cooldown
pub mod Whole
mod Tests
use rust_llm_inference_gatew.Prelude.{
  ℕ, suc, ◌+◌, ◌%◌, ◌==◌, Option, none, some, List, [], ◌∷◌, length, set, update, as_u64,
  if◌then◌else◌,
}
use rust_llm_inference_gatew.Router.{
  EndpointHealth, BackendRouter, Probe, visit, visit_at, apply_probe, update_at, mark_success,
  mark_failure,
}

-- Where a caller of `execute_chat` or `stream_chat` is: in the loop of `select_endpoint`, which took its
-- time `now` before it; at the backend of an endpoint; or back.
pub data Task : Type 0 where
  idle : Task
  trying : (start offset now : ℕ) → Task
  took : (endpoint : ℕ) → Task
  refused : Task

pub record System : Type 0 where
  pub router : BackendRouter
  pub task : ℕ → Task

-- A caller starts a selection, or visits its next endpoint; the backend that it called succeeds or fails;
-- or a health check locks one endpoint, with what it learned of it.
pub data Event : Type 0 where
  begins : (caller now : ℕ) → Event
  visits : (caller : ℕ) → Event
  succeeds : (caller latency_ms : ℕ) → Event
  fails : (caller latency_ms now : ℕ) → Event
  probes : (endpoint : ℕ) → Probe → Event

-- `next_index.fetch_add(1)`
begin : System → ℕ → ℕ → System
begin s caller now = record {
  router = record s.router { next_index = as_u64 (s.router.next_index + 1) };
  task = update s.task caller (trying s.router.next_index 0 now);
}

-- One round of the loop, under the lock of the endpoint, or its end.
try_next : System → ℕ → ℕ → ℕ → ℕ → System
try_next s caller start offset now =
    let endpoints = s.router.endpoints in
    let index = as_u64 (start + offset) % length endpoints in
    if offset == length endpoints
    then record s { task = update s.task caller refused }
    else elim (visit_at now endpoints index) [
      | none ↦ record s { task = update s.task caller (trying start (offset + 1) now) }
      | some h ↦ record {
        router = record s.router { endpoints = set endpoints index h };
        task = update s.task caller (took index);
      }
    ]

-- What is not for the caller to do changes nothing.
pub visit_by : System → ℕ → Task → System
unfolding try_next
visit_by s caller idle = s
visit_by s caller (trying start offset now) = try_next s caller start offset now
visit_by s caller (took endpoint) = s
visit_by s caller refused = s

begin_by : System → ℕ → ℕ → Task → System
unfolding begin
begin_by s caller now idle = begin s caller now
begin_by s caller now (trying start offset began) = s
begin_by s caller now (took endpoint) = s
begin_by s caller now refused = begin s caller now

succeed_by : System → ℕ → ℕ → Task → System
succeed_by s caller latency_ms idle = s
succeed_by s caller latency_ms (trying start offset now) = s
succeed_by s caller latency_ms (took endpoint) = record {
  router = mark_success s.router endpoint latency_ms;
  task = update s.task caller idle;
}
succeed_by s caller latency_ms refused = s

fail_by : System → ℕ → ℕ → ℕ → Task → System
fail_by s caller latency_ms now idle = s
fail_by s caller latency_ms now (trying start offset began) = s
fail_by s caller latency_ms now (took endpoint) = record {
  router = mark_failure s.router endpoint latency_ms now;
  task = update s.task caller idle;
}
fail_by s caller latency_ms now refused = s

-- The rest of a round of the loop of `check_once`.
probe_one : System → ℕ → Probe → System
probe_one s endpoint p = record s {
  router = record s.router {
    endpoints = update_at s.router.endpoints endpoint (apply_probe s.router p);
  };
}

pub step : System → Event → System
unfolding visit_by begin_by succeed_by fail_by probe_one
step s (begins caller now) = begin_by s caller now (s.task caller)
step s (visits caller) = visit_by s caller (s.task caller)
step s (succeeds caller latency_ms) = succeed_by s caller latency_ms (s.task caller)
step s (fails caller latency_ms now) = fail_by s caller latency_ms now (s.task caller)
step s (probes endpoint p) = probe_one s endpoint p

pub run : System → List Event → System
unfolding step
run s [] = s
run s (e ∷ es) = run (step s e) es
