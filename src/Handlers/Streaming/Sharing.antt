-- ===== src/Handlers/Streaming/Sharing.antt =====
-- The callers of src/handlers.rs who share one stream of src/coalescing.rs.
use rust_llm_inference_gatew.Prelude.{ℕ, ◌≡◌, ◌<◌, ap, ◌∙◌, true, List, map, Result}
use rust_llm_inference_gatew.Text.{Text}
use rust_llm_inference_gatew.Backend.{BackendError}
use rust_llm_inference_gatew.Models.{BackendChunk}
use rust_llm_inference_gatew.Coalescing.Stream.{StreamItem}
use rust_llm_inference_gatew.Coalescing.Stream.Interleaved.{System, Reach, initial}
use rust_llm_inference_gatew.Coalescing.Stream.Interleaved.Promises.{Reach-delivers}
use rust_llm_inference_gatew.Handlers.Streaming.{lead_stream, outbound}
use rust_llm_inference_gatew.Handlers.Streaming.Delivery.{events_text, stream_text, outbound-text}
use rust_llm_inference_gatew.Handlers.Streaming.Charges.{final_tokens, outbound-reconciles}

-- However callers and leaders interleave, once the leader of an entry has published its backend's
-- stream, every caller that had found that entry and is still there gets, as the contents of its own
-- events, the text of that stream up to its last chunk or its first error, and reconciles its own
-- estimate, for its own key, with the usage that the last chunk reports, once; it does not if that chunk
-- reports none, or if an error comes first.
pub outbound-shares :
    {s : System} (rx : ℕ) (response_id : Text) (created : ℕ) (model : Text) (api_key : Text)
    (estimated_tokens : ℕ) (backend_stream : List (Result BackendChunk BackendError))
    → Reach initial s
    → rx < s.shared.channels.next
    → s.shared.channels.alive rx ≡ true
    → s.published (s.source rx) ≡ (lead_stream backend_stream).published
    → let out =
        outbound response_id created model api_key estimated_tokens (s.shared.channels.sent rx) in
      (events_text out.events ≡ stream_text backend_stream)
      × (out.reconciled
          ≡ map
              (λ tokens. record {
                api_key = api_key;
                estimated = estimated_tokens;
                actual = tokens;
              })
              (final_tokens backend_stream))
outbound-shares rx response_id created model api_key estimated_tokens backend_stream r lt a led =
    let received = Reach-delivers rx r lt a ∙ led in
    let out = outbound response_id created model api_key estimated_tokens in
    (
      ap (λ (items : List StreamItem). events_text (out items).events) received
          ∙ outbound-text response_id created model api_key estimated_tokens backend_stream,
      ap (λ (items : List StreamItem). (out items).reconciled) received
          ∙ outbound-reconciles response_id created model api_key estimated_tokens backend_stream,
    )
