-- ===== src/Handlers/Streaming/Events.antt =====
-- The data of the server-sent events of src/handlers.rs, over any serde_json.
use mathlib.Core.List.{map-append}
use rust_llm_inference_gatew.Prelude.{
  subst, sym, ℕ, ◌≡◌, ◌≢◌, Bool-cases, inl, inr, Option, none, some, List, [], ◌∷◌, ◌++◌, Result,
  Result-cases, arith, ok, err, map, All, All-append,
}
use rust_llm_inference_gatew.Text.{Text, lit}
use rust_llm_inference_gatew.Models.{BackendChunk, ChatCompletionsChunk}
use rust_llm_inference_gatew.Coalescing.Stream.{StreamItem}
use rust_llm_inference_gatew.Handlers.Streaming.Delivery.{on_usage-events}
use rust_llm_inference_gatew.Handlers.Streaming.{
  SseEvent, chunk_event, error_event, done_event, Outbound, start, emit, emit_role, emit_delta,
  emit_finish, on_usage, on_chunk, forward, outbound,
}

-- `serde_json::to_string` of a chunk, and the text of `{"error": {"message": .., "type": ..}}`.
pub record Serde : Type 0 where
  pub to_string : ChatCompletionsChunk → Result Text Text
  pub error_json : Text → Text → Text

-- JSON objects open with a brace.
pub record IsJson (J : Serde) : Type 0 where
  pub to_string-brace :
      (chunk : ChatCompletionsChunk) (t : Text)
      → J.to_string chunk ≡ ok t
      → (rest : Text) × (t ≡ 123 ∷ rest)
  pub error_json-brace :
      (message error_type : Text) → (rest : Text) × (J.error_json message error_type ≡ 123 ∷ rest)

module _ (J : Serde) where
  serialized : Result Text Text → Text
  serialized (ok text) = text
  serialized (err error) = J.error_json (lit "serialization error: " ++ error) (lit "server_error")

  pub json_event : ChatCompletionsChunk → Text
  unfolding serialized
  json_event payload = serialized (J.to_string payload)

  pub data_of : SseEvent → Text
  unfolding json_event
  data_of (chunk_event chunk) = json_event chunk
  data_of (error_event message) = J.error_json message (lit "backend_error")
  data_of done_event = lit "[DONE]"

  -- What a client reads.
  abbrev pub data_lines : List SseEvent → List Text
  data_lines = map data_of

  module _ (v : IsJson J) where
    brace-ne_done : (t rest : Text) → t ≡ 123 ∷ rest → t ≢ lit "[DONE]"
    unfolding lit
    brace-ne_done t rest e same = ground arith

    abbrev Payload : SseEvent → Type 0
    Payload event = data_of event ≢ lit "[DONE]"

    map-Payload :
        (events : List SseEvent)
        → All Payload events
        → All (λ text. text ≢ lit "[DONE]") (data_lines events)
    map-Payload [] a = tt
    map-Payload (event ∷ events) (p, a) = (p, map-Payload events a)

    chunk-Payload : (chunk : ChatCompletionsChunk) → Payload (chunk_event chunk)
    unfolding data_of json_event serialized
    chunk-Payload chunk = elim (Result-cases (J.to_string chunk)) [
      | inl (t, e) ↦
          let (rest, opens) = v.to_string-brace chunk t e in rw e (brace-ne_done t rest opens)
      | inr (error, e) ↦
          let (rest, opens) =
            v.error_json-brace (lit "serialization error: " ++ error) (lit "server_error") in
          rw e (brace-ne_done _ rest opens)
    ]

    error-Payload : (message : Text) → Payload (error_event message)
    unfolding data_of
    error-Payload message =
        let (rest, opens) = v.error_json-brace message (lit "backend_error") in
        brace-ne_done _ rest opens

    module _ (response_id : Text) (created : ℕ) (model : Text) (api_key : Text)
        (estimated_tokens : ℕ) where
      emit-Payload :
          (s : Outbound) (event : SseEvent)
          → Payload event
          → All Payload s.events
          → All Payload (emit s event).events
      unfolding emit
      emit-Payload s event p a = All-append Payload s.events (event ∷ []) a (p, tt)

      emit_role-Payload :
          (s : Outbound)
          → All Payload s.events
          → All Payload (emit_role response_id created model s).events
      unfolding emit_role
      emit_role-Payload s a = elim (Bool-cases s.emitted_role) [
        | inl before ↦ rw before a
        | inr first ↦
            rw first (All-append Payload s.events (chunk_event _ ∷ []) a (chunk-Payload _, tt))
      ]

      emit_delta-Payload :
          (s : Outbound) (delta : Option Text)
          → All Payload s.events
          → All Payload (emit_delta response_id created model s delta).events
      unfolding emit_delta
      emit_delta-Payload s none a = a
      emit_delta-Payload s (some delta) a = emit-Payload s (chunk_event _) (chunk-Payload _) a

      emit_finish-Payload :
          (s : Outbound) (chunk : BackendChunk)
          → All Payload s.events
          → All Payload
              (emit_finish response_id created model api_key estimated_tokens s chunk).events
      unfolding emit_finish
      emit_finish-Payload s chunk a = elim (Bool-cases chunk.done) [
        | inl last ↦ rw last (
            emit-Payload (on_usage response_id created model api_key estimated_tokens s chunk.usage)
              (chunk_event _) (chunk-Payload _)
              (subst (All Payload)
                (sym (
                  on_usage-events response_id created model api_key estimated_tokens s chunk.usage))
                a))
        | inr more ↦ rw more a
      ]

      forward-Payload :
          (s : Outbound) (items : List StreamItem)
          → All Payload s.events
          → All Payload (forward response_id created model api_key estimated_tokens s items).events
      unfolding forward on_chunk
      forward-Payload s [] a = a
      forward-Payload s (err error ∷ items) a =
          emit-Payload s (error_event error) (error-Payload error) a
      forward-Payload s (ok chunk ∷ items) a =
          forward-Payload (on_chunk response_id created model api_key estimated_tokens s chunk)
            items
            (emit_finish-Payload _ chunk (emit_delta-Payload _ chunk.delta (emit_role-Payload s a)))

      -- Whatever the leader publishes, and though serialization may fail, a client reads the end
      -- marker exactly once, as the last data of its stream: the text of a JSON object is not the
      -- marker.
      pub outbound-ends :
          (items : List StreamItem)
          → (before : List Text) × (data_lines
                (outbound response_id created model api_key estimated_tokens items).events
              ≡ before ++ lit "[DONE]" ∷ [])
            × All (λ text. text ≢ lit "[DONE]") before
      unfolding outbound emit data_of
      outbound-ends items =
          let sent =
            (forward response_id created model api_key estimated_tokens start items).events in
          (
            data_lines sent,
            map-append data_of sent (done_event ∷ []),
            map-Payload sent (forward-Payload start items tt),
          )
