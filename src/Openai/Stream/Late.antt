-- ===== src/Openai/Stream/Late.antt =====
-- Usage that the provider reports after the reason for which it stopped.
use rust_llm_inference_gatew.Prelude.{◌≡◌, true, none, some, List, [], ◌∷◌, ◌++◌, ok, err, All}
use rust_llm_inference_gatew.Text.{Text}
use rust_llm_inference_gatew.Openai.{OpenAiStreamResponse}
use rust_llm_inference_gatew.Openai.Stream.{Item, Reader}

-- A response whose one choice says why the provider stopped.
abbrev pub stopped : Text → OpenAiStreamResponse
stopped reason = record {
  choices = record { delta = record { content = none }; finish_reason = some reason } ∷ [];
  usage = none;
}

abbrev pub HasNoUsage : Item → Type 0
HasNoUsage (ok chunk) = chunk.usage ≡ none
HasNoUsage (err e) = Unit

-- The last chunk has been yielded, and since then nothing that carries a usage.
record IsOver (before : List Item) (r : Reader) : Type 0 where
  over : r.done_emitted ≡ true
  later : List Item
  yielded : r.emitted ≡ before ++ later
  no_usage : All HasNoUsage later
