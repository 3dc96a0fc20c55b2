-- ===== src/Handlers/Streaming.antt =====
-- `stream_completion` of src/handlers.rs: the task of the leader, which publishes what the backend
-- streams, and the generator of server-sent events that every caller of the stream has.
mod Leader
pub mod Delivery
pub mod Charges
pub mod Begin
pub mod Sharing
pub mod Events
mod Tests
use rust_llm_inference_gatew.Prelude.{
  ℕ, Bool, true, false, Option, none, some, List, [], ◌∷◌, ◌++◌, Result, ok, err, if◌then◌else◌,
}
use rust_llm_inference_gatew.Text.{Text, lit}
use rust_llm_inference_gatew.Backend.{BackendError, error_text}
use rust_llm_inference_gatew.Models.{
  Usage, BackendChunk, ChatCompletionsChunk, role_chunk, delta_chunk, finish_chunk,
}
use rust_llm_inference_gatew.Coalescing.Stream.{StreamItem}
use rust_llm_inference_gatew.Handlers.OneShot.{Observation, usage_observed, backend_error}

-- What the task of the leader publishes, and what it observes.
pub record Led : Type 0 where
  pub published : List StreamItem
  pub observed : List Observation

-- The loop of the leader over the backend's stream.
pub lead_stream : List (Result BackendChunk BackendError) → Led
lead_stream [] = record { published = []; observed = [] }
lead_stream (ok chunk ∷ backend_stream) =
    let rest = lead_stream backend_stream in
    if chunk.done
    then record { published = ok chunk ∷ []; observed = [] }
    else record rest { published = ok chunk ∷ rest.published }
lead_stream (err error ∷ backend_stream) = record {
  published = err (error_text error) ∷ [];
  observed = backend_error (lit "stream_leader_read") ∷ [];
}

-- The whole task, for what `stream_chat` returns to it.
pub publish_backend : Result (List (Result BackendChunk BackendError)) BackendError → Led
unfolding lead_stream
publish_backend (ok backend_stream) = lead_stream backend_stream
publish_backend (err error) = record {
  published = err (error_text error) ∷ [];
  observed = backend_error (lit "stream_leader_start") ∷ [];
}

-- The data of an event: a chunk as JSON, an error, or the end marker.
pub data SseEvent : Type 0 where
  chunk_event : ChatCompletionsChunk → SseEvent
  error_event : Text → SseEvent
  done_event : SseEvent

-- A call of `reconcile_tokens`.
pub record Reconciliation : Type 0 where
  pub api_key : Text
  pub estimated : ℕ
  pub actual : ℕ

-- The variables of the generator, what it has yielded, its calls of `reconcile_tokens`, and what it
-- has observed.
pub record Outbound : Type 0 where
  pub emitted_role : Bool
  pub events : List SseEvent
  pub reconciled : List Reconciliation
  pub observed : List Observation

abbrev pub start : Outbound
start = record { emitted_role = false; events = []; reconciled = []; observed = [] }

pub emit : Outbound → SseEvent → Outbound
emit s event = record s { events = s.events ++ event ∷ [] }

unfoldable pub reported_tokens : Option Usage → List ℕ
reported_tokens none = []
reported_tokens (some usage) = usage.total_tokens ∷ []

pub reason_or_stop : Option Text → Text
reason_or_stop none = lit "stop"
reason_or_stop (some reason) = reason

module _ (response_id : Text) (created : ℕ) (model : Text) where
  pub emit_role : Outbound → Outbound
  emit_role s = if s.emitted_role then s else record s {
    emitted_role = true;
    events = s.events ++ chunk_event (role_chunk response_id created model) ∷ [];
  }

  pub emit_delta : Outbound → Option Text → Outbound
  unfolding emit
  emit_delta s none = s
  emit_delta s (some delta) = emit s (chunk_event (delta_chunk response_id created model delta))

  module _ (api_key : Text) (estimated_tokens : ℕ) where
    pub on_usage : Outbound → Option Usage → Outbound
    on_usage s none = s
    on_usage s (some usage) = record s {
      reconciled =
          s.reconciled
          ++ record { api_key = api_key; estimated = estimated_tokens; actual = usage.total_tokens }
            ∷ [];
      observed = s.observed ++ usage_observed usage ∷ [];
    }

    pub emit_finish : Outbound → BackendChunk → Outbound
    unfolding emit on_usage reason_or_stop
    emit_finish s chunk =
        if chunk.done
        then emit (on_usage s chunk.usage) (
            chunk_event
              (finish_chunk response_id created model (reason_or_stop chunk.finish_reason)))
        else s

    pub on_chunk : Outbound → BackendChunk → Outbound
    unfolding emit_role emit_delta emit_finish
    on_chunk s chunk = emit_finish (emit_delta (emit_role s) chunk.delta) chunk

    -- The loop over what the receiver yields until its channel closes.
    pub forward : Outbound → List StreamItem → Outbound
    unfolding on_chunk emit
    forward s [] = s
    forward s (ok chunk ∷ items) = forward (on_chunk s chunk) items
    forward s (err error ∷ items) =
        emit (record s { observed = s.observed ++ backend_error (lit "stream_fanout") ∷ [] })
          (error_event error)

    -- The whole generator.
    pub outbound : List StreamItem → Outbound
    unfolding forward emit
    outbound items = emit (forward start items) done_event
