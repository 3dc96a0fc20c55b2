-- ===== src/Openai/Stream.antt =====
-- `stream_chat` of src/backend/openai.rs, after the request has been accepted: server-sent events are
-- read from network chunks that may end anywhere, and become the chunks of the gateway.
pub mod Terminal
pub mod Chunking
pub mod Late
mod Tests
use rust_llm_inference_gatew.Prelude.{
  ℕ, Bool, true, false, Option, none, some, List, [], ◌∷◌, ◌++◌, Result, ok, err, ◌==◌,
  if◌then◌else◌,
}
use rust_llm_inference_gatew.Text.{Text, lit, text_eq, trim, is_empty}
use rust_llm_inference_gatew.Backend.{BackendError, unavailable, invalid_response}
use rust_llm_inference_gatew.Models.{Usage, BackendChunk}
use rust_llm_inference_gatew.Openai.{
  OpenAiUsage, OpenAiStreamChoice, OpenAiStreamResponse, usage_from,
}

abbrev pub Item : Type 0
Item = Result BackendChunk BackendError

-- The variables of the generator, and what it has yielded.
pub record Reader : Type 0 where
  pub final_usage : Option Usage
  pub done_emitted : Bool
  pub emitted : List Item

abbrev pub start : Reader
start = record { final_usage = none; done_emitted = false; emitted = [] }

pub emit : Reader → Item → Reader
emit r item = record r { emitted = r.emitted ++ item ∷ [] }

abbrev pub delta_of : Text → Item
delta_of content =
    ok (record { delta = some content; finish_reason = none; usage = none; done = false })

abbrev pub done_with : Text → Option Usage → Item
done_with reason usage =
    ok (record { delta = none; finish_reason = some reason; usage = usage; done = true })

-- `if !done_emitted { yield Ok(..done: true..); done_emitted = true; }`
pub emit_done : Reader → Text → Reader
emit_done r reason = if r.done_emitted then r else record r {
  done_emitted = true;
  emitted = r.emitted ++ done_with reason r.final_usage ∷ [];
}

pub emit_content : Reader → Option Text → Reader
unfolding emit
emit_content r none = r
emit_content r (some content) = if is_empty content then r else emit r (delta_of content)

pub finish : Reader → Option Text → Reader
unfolding emit_done
finish r none = r
finish r (some reason) = emit_done r reason

pub note_usage : Reader → Option OpenAiUsage → Reader
unfolding usage_from
note_usage r none = r
note_usage r (some usage) = record r { final_usage = some (usage_from usage) }

pub process_choice : Reader → List OpenAiStreamChoice → Reader
unfolding emit_content finish
process_choice r [] = r
process_choice r (choice ∷ choices) =
    finish (emit_content r choice.delta.content) choice.finish_reason

pub process_parsed : Reader → Result OpenAiStreamResponse Text → Reader
unfolding emit note_usage process_choice
process_parsed r (err e) = emit r (err (invalid_response e))
process_parsed r (ok parsed) = process_choice (note_usage r parsed.usage) parsed.choices

-- `strip_prefix`
strip_prefix : Text → Text → Option Text
strip_prefix [] s = some s
strip_prefix (p ∷ ps) [] = none
strip_prefix (p ∷ ps) (c ∷ s) = if p == c then strip_prefix ps s else none

-- `serde_json::from_str` is `parse`, and `std::str::from_utf8` is `from_utf8`.
module _ (parse : Text → Result OpenAiStreamResponse Text) where
  pub process_payload : Reader → Text → Reader
  unfolding emit_done process_parsed
  process_payload r payload =
      if text_eq payload (lit "[DONE]")
      then emit_done r (lit "stop")
      else process_parsed r (parse payload)

  pub process_data : Reader → Option Text → Reader
  unfolding process_payload
  process_data r none = r
  process_data r (some payload) = process_payload r (trim payload)

  pub process_line : Reader → Text → Reader
  unfolding process_data strip_prefix
  process_line r line =
      if is_empty (trim line) then r else process_data r (strip_prefix (lit "data:") (trim line))

  -- The loop over the lines of the buffer, where `line` is what has been read of the current one. The
  -- result is the reader, and what is left in the buffer.
  pub drain : Reader → Text → Text → Reader × Text
  drain r line [] = (r, line)
  drain r line (c ∷ buffer) = elim (c == 10) [
    | true ↦ drain (process_line r line) [] buffer
    | false ↦ drain r (line ++ c ∷ []) buffer
  ]

  module _ (from_utf8 : List ℕ → Result Text Text) where
    -- The loop over the network chunks.
    pub read : Reader → Text → List (Result (List ℕ) Text) → Reader
    unfolding drain
    read r buffer [] = r
    read r buffer (err e ∷ upstream) = emit r (err (unavailable e))
    read r buffer (ok bytes ∷ upstream) = elim (from_utf8 bytes) [
      | err e ↦ emit r (err (invalid_response e))
      | ok text ↦ let (r', rest) = drain r [] (buffer ++ text) in read r' rest upstream
    ]

    -- All that the stream yields, if it is read to its end.
    pub stream_chat : List (Result (List ℕ) Text) → List Item
    unfolding read emit_done
    stream_chat upstream = (emit_done (read start [] upstream) (lit "stop")).emitted
