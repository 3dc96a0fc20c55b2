-- ===== src/Lib.antt =====
-- An OpenAI-compatible gateway, which sits between HTTP clients and LLM backends. A request of
-- `/v1/chat/completions` is authenticated (src/auth.rs), normalised (src/models.rs), admitted by the
-- rate limiter (src/limits.rs) and given a fingerprint (src/scheduler.rs). A one-shot request is then
-- answered from the cache (src/cache.rs), or it joins or leads a call of the backend
-- (src/coalescing.rs), which goes through the micro-batcher (src/batcher.rs) and the router
-- (src/router.rs) to a backend (src/backend/). A streamed request leads or joins a stream of the
-- coalescer. When the usage is known, the limiter's charge is corrected.
--
-- The files, by the code that they are about:
-- Models: the types of src/models.rs with `into_normalized`, `Usage::new`, `from_backend` and the
--   constructors of stream chunks. `f32` is a type parameter.
-- Backend: `BackendError` of src/backend/mod.rs.
-- Limits: `check_and_consume_memory`, `reconcile_tokens`, `refresh_windows` and the snapshots of
--   src/limits.rs. Limits/Windows, Quota and Reconcile are about single calls; Limits/Trace runs
--   sequences of calls, with what all calls of a minute or of a day get (Trace/Budget) and the
--   independence of keys (Trace/Isolation).
--   Limits/Redis is the other backend, `check_and_consume_redis` with its script and
--   `reconcile_tokens_redis`, over any Redis: Redis/Counters says what is relied on, Redis/Script is
--   about one run of the script, and Redis/Decision, Agreement and Reconcile compare the two backends.
--   Limits/Estimate is `estimate_request_tokens`, and Limits/Interface what the handlers use,
--   which Limits/Config fills with the Redis backend.
-- Env: the variables of the environment and `str::parse` of numbers.
-- Auth: `ApiKeyRegistry` of src/auth.rs with `from_env` and `authenticate`; Auth/Keys is about the
--   keys and Auth/Policy about the limits.
-- Errors: `AppError` of src/errors.rs and its responses.
-- Router: `select_endpoint`, `mark_success`, `mark_failure`, `check_once` and `execute_chat` of
--   src/router.rs. Router/Select is about one selection, Router/RoundRobin about a round of them, and
--   Router/Circuit about the circuit breaker under selections, outcomes and health checks;
--   Router/Probes is about health checks that fail, and Router/Requests about one request. There a
--   selection is one step; Router/Interleaved cuts requests and health checks at the locks of the
--   endpoints and runs them in any order, and Interleaved/Whole is about the selections that nothing
--   interrupts.
-- Coalescing/OneShot: `execute_or_join` of src/coalescing.rs, cut at its awaits into `enter` and
--   `complete`; OneShot/Leaders interleaves callers, backend answers and cancellations.
-- Coalescing/Stream: `join_or_create_stream` and `publish_stream_item`. Stream/Shared cuts them at
--   their locks, with entries behind references; Stream/Interleaved runs callers and the leaders of
--   `stream_completion` in any order between the locks. In Stream itself a call is one step, and
--   Stream/Refinement compares the two; Stream/Fanout follows the receivers of one entry.
-- Batcher: `run_batch_worker` of src/batcher.rs with `BatchClass`; Batcher/Config is
--   `BatchConfig::from_env` and `submit`.
-- Dispatch: the worker of the batcher with the router as its backend, and (Dispatch/Crowd) callers of
--   the coalescer in front of them, as `one_shot_completion` of src/handlers.rs composes the three.
-- Cache: `get` and `set` of the in-memory `ResponseCache` of src/cache.rs; Cache/Interface is what the
--   handlers use and rely on, Cache/Redis the Redis backend, and Cache/Config what is read from the
--   environment.
-- Scheduler: `fingerprint_for` of src/scheduler.rs.
-- Openai: what `execute_chat` of src/backend/openai.rs makes of a response; Openai/Stream is the
--   generator of its `stream_chat`, and Openai/Config its configuration, URL and payload.
-- Mock: src/backend/mock.rs.
-- Handlers/OneShot: `process_chat_completions` and `one_shot_completion` of src/handlers.rs, over any
--   limiter and any cache, and the coalescer. A call is cut at the awaits that follow its lookup: it
--   begins, `resume_leader` or `resume_follower` takes its answer, `settle` corrects its charge, and
--   `store_response` ends it; steps of other requests may come in between. OneShot/Refusals and Admission are
--   about the way in, OneShot/Repeats, Shared and Charge about the way out.
-- Handlers/Streaming: the start (Streaming/Begin), the leader's task and the outbound events of
--   `stream_completion` of src/handlers.rs; Streaming/Events is the data of the events, and
--   Streaming/Sharing joins the generator to the interleaved streams of the coalescer.
-- Handlers/Chat: `chat_completions`, with what it counts; Handlers/Ops: `healthz` and `metrics`.
-- Metrics: what src/metrics.rs counts, over any prometheus registry; Metrics/Registry is its `new` and
--   `render`, over any prometheus library.
-- Startup: `build_state` of src/lib.rs and `AppState::new` of src/state.rs.
-- Text, HashMap, Prelude: strings, maps and machine integers of Rust, as the gateway uses them.
--
-- Each access under a mutex is one step, and the clock is an argument: a number of seconds in Limits,
-- of milliseconds in Router and of nanoseconds in Cache and Metrics. In Batcher the clock is part of the sequence
-- of signals that the worker sees: an item that arrives, or a wait that ends. `u32` and `u64` are
-- natural numbers with the saturation and the wrap-around of the source written out; `i64` is an
-- integer of Prelude/Int, with its bounds as conditions.
--
-- The worker of Batcher runs on fuel, one unit for each round; a round takes at least one item, so
-- that one unit more than there are signals is enough. `to_decimal` of Text/Decimal gives itself one
-- unit more than its number, which is more than the number has digits.
--
-- The HTTP client and server, serde_json, SHA-256, UTF-8 decoding, `format!` of `f32`, the UUID
-- generator and the builders of clients are parameters or the values that they return. Redis is a
-- record of its commands and of Lua's numbers, which are doubles, and prometheus one of its constructors and calls, with their documented
-- behaviour as laws.
--
-- In Dispatch the calls of the router are numbered, and what a backend would answer to each call is a
-- parameter. In Stream/Interleaved a leader that never comes back from its own call stands for a caller
-- whose future is dropped.
--
-- Not modelled: src/main.rs and the table of routes, which only call tokio and axum; logging.
pub mod Auth
pub mod Backend
pub mod Batcher
pub mod Cache
pub mod Coalescing
pub mod Dispatch
pub mod Env
pub mod Errors
pub mod Handlers
pub mod HashMap
pub mod Limits
pub mod Metrics
pub mod Mock
pub mod Models
pub mod Openai
pub mod Prelude
pub mod Router
pub mod Scheduler
pub mod Startup
pub mod Text
