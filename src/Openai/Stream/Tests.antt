-- ===== src/Openai/Stream/Tests.antt =====
-- Streams of src/backend/openai.rs.
use rust_llm_inference_gatew.Prelude.{
  ℕ, ◌≡◌, refl, none, some, List, [], ◌∷◌, map, Result, ok, err, if◌then◌else◌,
}
use rust_llm_inference_gatew.Text.{Text, lit, text_eq, trim, is_empty, is_whitespace}
use rust_llm_inference_gatew.Openai.{OpenAiUsage, OpenAiStreamResponse}
use rust_llm_inference_gatew.Openai.Stream.{delta_of, done_with, process_line, stream_chat}
use rust_llm_inference_gatew.Openai.Stream.Terminal.{done_count, stream_chat-one_done}
use rust_llm_inference_gatew.Openai.Stream.Chunking.{flatten, stream_chat-flatten}
use rust_llm_inference_gatew.Openai.Stream.Late.{stopped}

-- A parser that takes its text for the content of a choice.
abbrev parse : Text → Result OpenAiStreamResponse Text
parse s = ok (record {
  choices = record { delta = record { content = some s }; finish_reason = none } ∷ [];
  usage = none;
})

abbrev decode : List ℕ → Result Text Text
decode bytes = ok bytes

-- "data:ab\nda", and "ta: c\n"
abbrev front : Text
front = 100 ∷ 97 ∷ 116 ∷ 97 ∷ 58 ∷ 97 ∷ 98 ∷ 10 ∷ 100 ∷ 97 ∷ []

abbrev back : Text
back = 116 ∷ 97 ∷ 58 ∷ 32 ∷ 99 ∷ 10 ∷ []

two_events :
    stream_chat parse decode (ok front ∷ ok back ∷ [])
    ≡ delta_of (97 ∷ 98 ∷ []) ∷ delta_of (99 ∷ []) ∷ done_with (lit "stop") none ∷ []
unfolding stream_chat process_line is_empty trim is_whitespace lit text_eq
two_events = refl

stream_chat-one_done_example :
    done_count (stream_chat parse decode (ok front ∷ err (lit "reset") ∷ ok back ∷ [])) ≡ 1
stream_chat-one_done_example =
    stream_chat-one_done parse decode (ok front ∷ err (lit "reset") ∷ ok back ∷ [])

stream_chat-flatten_example :
    stream_chat parse decode (map (λ s. ok s) (front ∷ back ∷ []))
    ≡ stream_chat parse decode (ok (flatten (front ∷ back ∷ [])) ∷ [])
stream_chat-flatten_example =
    stream_chat-flatten parse decode (λ s. s) (λ s. refl) front (back ∷ [])

abbrev five : OpenAiUsage
five = record { prompt_tokens = 2; completion_tokens = 3; total_tokens = 5 }

-- A parser of the texts "s" and "u".
abbrev parse_late : Text → Result OpenAiStreamResponse Text
parse_late s =
    if text_eq s (115 ∷ [])
    then ok (stopped (lit "stop"))
    else ok (record { choices = []; usage = some five })
