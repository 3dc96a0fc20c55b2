-- ===== src/Handlers/Streaming/Tests.antt =====
-- A shared stream of src/handlers.rs, whose one chunk reports five tokens.
use rust_llm_inference_gatew.Prelude.{
  ◌≡◌, ◌≢◌, ◌++◌, All, ◌∙◌, sym, refl, List, [], ◌∷◌, map, ok, err,
}
use rust_llm_inference_gatew.Text.{Text, lit}
use rust_llm_inference_gatew.Models.{ChatCompletionsChunk}
use rust_llm_inference_gatew.Handlers.Streaming.{lead_stream, outbound}
use rust_llm_inference_gatew.Coalescing.Stream.Interleaved.Fixture.{
  last_chunk, late, late-Reach, late_follower,
}
use rust_llm_inference_gatew.Handlers.Streaming.Events.{Serde, IsJson, data_lines, outbound-ends}
use rust_llm_inference_gatew.Handlers.Streaming.Sharing.{outbound-shares}
use rust_llm_inference_gatew.Handlers.Streaming.Delivery.{events_text, stream_text}
use rust_llm_inference_gatew.Handlers.Streaming.Charges.{final_tokens}

leads_last : (lead_stream (ok last_chunk ∷ [])).published ≡ ok last_chunk ∷ []
unfolding lead_stream
leads_last = refl

-- The late follower of a leader whose backend sends one chunk, the last one.
outbound-shares_example :
    (events_text
        (outbound (105 ∷ []) 7 (109 ∷ []) (107 ∷ []) 12 (late.shared.channels.sent 1)).events
      ≡ stream_text (ok last_chunk ∷ []))
    × ((outbound (105 ∷ []) 7 (109 ∷ []) (107 ∷ []) 12 (late.shared.channels.sent 1)).reconciled
        ≡ map
            (λ tokens. record { api_key = 107 ∷ []; estimated = 12; actual = tokens })
            (final_tokens (ok last_chunk ∷ [])))
outbound-shares_example =
    outbound-shares 1 (105 ∷ []) 7 (109 ∷ []) (107 ∷ []) 12 (ok last_chunk ∷ []) late-Reach
      late_follower.0 late_follower.1 (late_follower.2 ∙ sym leads_last)

-- A serializer that fails on every chunk.
abbrev failing : Serde
failing = record {
  to_string = λ chunk. err (lit "unserializable");
  error_json = λ message error_type. 123 ∷ message ++ error_type ++ 125 ∷ [];
}

no_string :
    (chunk : ChatCompletionsChunk) (t : Text)
    → failing.to_string chunk ≡ ok t
    → (rest : Text) × (t ≡ 123 ∷ rest)
no_string chunk t e = absurd (cc)

abbrev failing-IsJson : IsJson failing
failing-IsJson = record {
  to_string-brace = no_string;
  error_json-brace = λ message error_type. (message ++ error_type ++ 125 ∷ [], refl);
}

outbound-ends_example :
    (before : List Text) × (data_lines failing
        (outbound
          (105 ∷ [])
          7
          (109 ∷ [])
          (107 ∷ [])
          12
          (ok last_chunk ∷ err (lit "[DONE]") ∷ [])).events
      ≡ before ++ lit "[DONE]" ∷ [])
    × All (λ text. text ≢ lit "[DONE]") before
outbound-ends_example =
    outbound-ends failing failing-IsJson (105 ∷ []) 7 (109 ∷ []) (107 ∷ []) 12
      (ok last_chunk ∷ err (lit "[DONE]") ∷ [])
