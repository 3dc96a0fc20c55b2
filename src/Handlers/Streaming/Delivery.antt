-- ===== src/Handlers/Streaming/Delivery.antt =====
-- The text that a caller of src/handlers.rs receives as server-sent events.
use rust_llm_inference_gatew.Prelude.{
  ℕ, ◌≡◌, refl, sym, ap, ◌∙◌, true, false, Option, none, some, List, [], ◌∷◌, ◌++◌, append_assoc,
  append-nil, Result, ok, err, if◌then◌else◌, Bool-cases, inl, inr,
}
use rust_llm_inference_gatew.Text.{Text}
use rust_llm_inference_gatew.Backend.{BackendError, error_text}
use rust_llm_inference_gatew.Models.{
  Usage, BackendChunk, ChunkChoice, role_chunk, delta_chunk, finish_chunk,
}
use rust_llm_inference_gatew.Coalescing.Stream.{StreamItem}
use rust_llm_inference_gatew.Handlers.Streaming.Leader.{lead_stream_last, lead_stream_more}
use rust_llm_inference_gatew.Handlers.Streaming.{
  lead_stream, SseEvent, chunk_event, error_event, done_event, Outbound, start, emit, emit_role,
  emit_delta, emit_finish, on_usage, on_chunk, forward, outbound, reason_or_stop,
}

unfoldable pub text_or_empty : Option Text → Text
text_or_empty none = []
text_or_empty (some text) = text

choices_text : List ChunkChoice → Text
choices_text [] = []
choices_text (choice ∷ choices) = text_or_empty choice.delta.content ++ choices_text choices

event_text : SseEvent → Text
event_text (chunk_event chunk) = choices_text chunk.choices
event_text (error_event error) = []
event_text done_event = []

-- The text that a client puts together from the events.
pub events_text : List SseEvent → Text
unfolding event_text choices_text text_or_empty
events_text [] = []
events_text (event ∷ events) = event_text event ++ events_text events

-- The text of a backend's stream, up to its last chunk or its first error.
unfoldable pub stream_text : List (Result BackendChunk BackendError) → Text
unfolding text_or_empty
stream_text [] = []
stream_text (ok chunk ∷ rest) =
    let more = stream_text rest in text_or_empty chunk.delta ++ (if chunk.done then [] else more)
stream_text (err error ∷ rest) = []

events_text-append :
    (xs ys : List SseEvent) → events_text (xs ++ ys) ≡ events_text xs ++ events_text ys
unfolding events_text
events_text-append [] ys = refl
events_text-append (x ∷ xs) ys =
    ap (λ (t : Text). event_text x ++ t) (events_text-append xs ys)
    ∙ sym (append_assoc (event_text x) (events_text xs) (events_text ys))

-- An event without content adds no text.
quiet :
    (xs : List SseEvent) (e : SseEvent)
    → event_text e ≡ []
    → events_text (xs ++ e ∷ []) ≡ events_text xs
unfolding events_text
quiet xs e h =
    events_text-append xs (e ∷ [])
    ∙ ap (λ (t : Text). events_text xs ++ (t ++ [])) h
    ∙ append-nil (events_text xs)

module _ (chunk : BackendChunk) (rest : List (Result BackendChunk BackendError)) where
  stream_text_last : chunk.done ≡ true → stream_text (ok chunk ∷ rest) ≡ text_or_empty chunk.delta
  unfolding stream_text
  stream_text_last last = rw last (append-nil (text_or_empty chunk.delta))

  stream_text_more :
      chunk.done ≡ false
      → stream_text (ok chunk ∷ rest) ≡ text_or_empty chunk.delta ++ stream_text rest
  unfolding stream_text
  stream_text_more more = rw more refl

module _ (response_id : Text) (created : ℕ) (model : Text) (api_key : Text)
    (estimated_tokens : ℕ) where
  emit_role-text :
      (s : Outbound)
      → events_text (emit_role response_id created model s).events ≡ events_text s.events
  unfolding emit_role
  emit_role-text s = elim (Bool-cases s.emitted_role) [
    | inl holds ↦ rw holds refl
    | inr fails ↦ rw fails (
        quiet s.events (chunk_event (role_chunk response_id created model))
          (unfold role_chunk event_text choices_text text_or_empty in refl))
  ]

  emit_delta-text :
      (s : Outbound) (delta : Option Text)
      → events_text (emit_delta response_id created model s delta).events
        ≡ events_text s.events ++ text_or_empty delta
  unfolding emit_delta emit text_or_empty delta_chunk event_text choices_text events_text
  emit_delta-text s none = sym (append-nil (events_text s.events))
  emit_delta-text s (some delta) =
      events_text-append s.events (chunk_event (delta_chunk response_id created model delta) ∷ [])
      ∙ ap (λ (t : Text). events_text s.events ++ t) (append-nil (delta ++ []) ∙ append-nil delta)

  pub on_usage-events :
      (s : Outbound) (usage : Option Usage)
      → (on_usage response_id created model api_key estimated_tokens s usage).events ≡ s.events
  unfolding on_usage
  on_usage-events s none = refl
  on_usage-events s (some usage) = refl

  emit_finish-text :
      (s : Outbound) (chunk : BackendChunk)
      → events_text (emit_finish response_id created model api_key estimated_tokens s chunk).events
        ≡ events_text s.events
  unfolding emit_finish emit
  emit_finish-text s chunk = elim (Bool-cases chunk.done) [
    | inl holds ↦ rw holds (
        quiet _
          (chunk_event
            (finish_chunk response_id created model (reason_or_stop chunk.finish_reason)))
          (unfold finish_chunk event_text choices_text text_or_empty in refl)
        ∙ ap events_text (on_usage-events s chunk.usage))
    | inr fails ↦ rw fails refl
  ]

  on_chunk-text :
      (s : Outbound) (chunk : BackendChunk)
      → events_text (on_chunk response_id created model api_key estimated_tokens s chunk).events
        ≡ events_text s.events ++ text_or_empty chunk.delta
  unfolding on_chunk
  on_chunk-text s chunk =
      emit_finish-text
        (emit_delta response_id created model (emit_role response_id created model s) chunk.delta)
        chunk
      ∙ emit_delta-text (emit_role response_id created model s) chunk.delta
      ∙ ap (λ (t : Text). t ++ text_or_empty chunk.delta) (emit_role-text s)

  forward-text :
      (s : Outbound) (backend_stream : List (Result BackendChunk BackendError))
      → events_text
          (forward response_id created model api_key estimated_tokens s
            (lead_stream backend_stream).published).events
        ≡ events_text s.events ++ stream_text backend_stream
  unfolding forward lead_stream stream_text emit
  forward-text s [] = sym (append-nil (events_text s.events))
  forward-text s (err error ∷ rest) =
      quiet s.events (error_event (error_text error)) (unfold event_text in refl)
      ∙ sym (append-nil (events_text s.events))
  forward-text s (ok chunk ∷ rest) =
      let received = λ (items : List StreamItem).
        events_text (forward response_id created model api_key estimated_tokens s items).events in
      let with_text = λ (t : Text). events_text s.events ++ t in
      elim (Bool-cases chunk.done) [
        | inl last ↦
            ap received (lead_stream_last chunk rest last)
            ∙ on_chunk-text s chunk
            ∙ ap with_text (sym (stream_text_last chunk rest last))
        | inr more ↦
            ap received (lead_stream_more chunk rest more)
            ∙ forward-text (on_chunk response_id created model api_key estimated_tokens s chunk)
                rest
            ∙ ap (λ (t : Text). t ++ stream_text rest) (on_chunk-text s chunk)
            ∙ append_assoc (events_text s.events) (text_or_empty chunk.delta) (stream_text rest)
            ∙ ap with_text (sym (stream_text_more chunk rest more))
      ]

  -- A caller that receives what the leader publishes is sent, as the contents of its events, the text
  -- of the backend's stream, up to the last chunk or the first error.
  pub outbound-text :
      (backend_stream : List (Result BackendChunk BackendError))
      → events_text
          (outbound response_id created model api_key estimated_tokens
            (lead_stream backend_stream).published).events
        ≡ stream_text backend_stream
  unfolding outbound emit
  outbound-text backend_stream =
      quiet
        (forward response_id created model api_key estimated_tokens start
          (lead_stream backend_stream).published).events
        done_event (unfold event_text in refl)
      ∙ forward-text start backend_stream
      ∙ (unfold events_text in refl)
