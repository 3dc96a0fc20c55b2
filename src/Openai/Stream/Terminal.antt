-- ===== src/Openai/Stream/Terminal.antt =====
-- How a stream of src/backend/openai.rs ends.
use rust_llm_inference_gatew.Prelude.{
  ℕ, ◌+◌, ◌≡◌, refl, Bool, false, Option, none, some, List, [], ◌∷◌, ◌++◌, Result, ok, err, arith,
  ◌==◌, if◌then◌else◌, Bool-cases, Result-cases, inl, inr,
}
use rust_llm_inference_gatew.Text.{Text, lit, text_eq, trim, is_empty}
use rust_llm_inference_gatew.Backend.{unavailable, invalid_response}
use rust_llm_inference_gatew.Openai.{OpenAiUsage, OpenAiStreamChoice, OpenAiStreamResponse}
use rust_llm_inference_gatew.Openai.Stream.{
  Item, Reader, start, emit, delta_of, done_with, emit_done, emit_content, finish, note_usage,
  process_choice, process_parsed, process_payload, process_data, process_line, drain, read,
  stream_chat,
}

is_done : Item → Bool
is_done (ok chunk) = chunk.done
is_done (err e) = false

-- How many of the items are chunks that say that they are the last.
pub done_count : List Item → ℕ
unfolding is_done
done_count [] = 0
done_count (i ∷ is) = (if is_done i then 1 else 0) + done_count is

done_count-append : (xs ys : List Item) → done_count (xs ++ ys) ≡ done_count xs + done_count ys
unfolding done_count
done_count-append [] ys = omega arith
done_count-append (x ∷ xs) ys = omega (arith, done_count-append xs ys)

-- The flag says whether the last chunk has been yielded.
abbrev IsCounted : Reader → Type 0
IsCounted r = done_count r.emitted ≡ (if r.done_emitted then 1 else 0)

emit-IsCounted :
    (r : Reader) (item : Item) → is_done item ≡ false → IsCounted r → IsCounted (emit r item)
unfolding emit done_count
emit-IsCounted r item h v = ground (arith, done_count-append r.emitted (item ∷ []))

emit_done-counts :
    (r : Reader) (reason : Text) → IsCounted r → done_count (emit_done r reason).emitted ≡ 1
unfolding emit_done done_count is_done
emit_done-counts r reason v =
    ground (arith, done_count-append r.emitted (done_with reason r.final_usage ∷ []))

emit_done-IsCounted : (r : Reader) (reason : Text) → IsCounted r → IsCounted (emit_done r reason)
unfolding emit_done done_count is_done
emit_done-IsCounted r reason v =
    ground (arith, done_count-append r.emitted (done_with reason r.final_usage ∷ []))

emit_content-IsCounted :
    (r : Reader) (content : Option Text) → IsCounted r → IsCounted (emit_content r content)
unfolding emit_content is_done
emit_content-IsCounted r none v = v
emit_content-IsCounted r (some content) v = elim (Bool-cases (is_empty content)) [
  | inl empty ↦ rw empty v
  | inr full ↦ rw full (emit-IsCounted r (delta_of content) refl v)
]

finish-IsCounted : (r : Reader) (reason : Option Text) → IsCounted r → IsCounted (finish r reason)
unfolding finish
finish-IsCounted r none v = v
finish-IsCounted r (some reason) v = emit_done-IsCounted r reason v

note_usage-IsCounted :
    (r : Reader) (usage : Option OpenAiUsage) → IsCounted r → IsCounted (note_usage r usage)
unfolding note_usage
note_usage-IsCounted r none v = v
note_usage-IsCounted r (some usage) v = v

process_choice-IsCounted :
    (r : Reader) (choices : List OpenAiStreamChoice)
    → IsCounted r
    → IsCounted (process_choice r choices)
unfolding process_choice
process_choice-IsCounted r [] v = v
process_choice-IsCounted r (choice ∷ choices) v =
    finish-IsCounted (emit_content r choice.delta.content) choice.finish_reason
      (emit_content-IsCounted r choice.delta.content v)

process_parsed-IsCounted :
    (r : Reader) (parsed : Result OpenAiStreamResponse Text)
    → IsCounted r
    → IsCounted (process_parsed r parsed)
unfolding process_parsed is_done
process_parsed-IsCounted r (err e) v = emit-IsCounted r (err (invalid_response e)) refl v
process_parsed-IsCounted r (ok parsed) v =
    process_choice-IsCounted (note_usage r parsed.usage) parsed.choices
      (note_usage-IsCounted r parsed.usage v)

module _ (parse : Text → Result OpenAiStreamResponse Text) where
  process_payload-IsCounted :
      (r : Reader) (payload : Text) → IsCounted r → IsCounted (process_payload parse r payload)
  unfolding process_payload
  process_payload-IsCounted r payload v = elim (Bool-cases (text_eq payload (lit "[DONE]"))) [
    | inl over ↦ rw over (emit_done-IsCounted r (lit "stop") v)
    | inr more ↦ rw more (process_parsed-IsCounted r (parse payload) v)
  ]

  process_data-IsCounted :
      (r : Reader) (payload : Option Text) → IsCounted r → IsCounted (process_data parse r payload)
  unfolding process_data
  process_data-IsCounted r none v = v
  process_data-IsCounted r (some payload) v = process_payload-IsCounted r (trim payload) v

  process_line-IsCounted :
      (r : Reader) (line : Text) → IsCounted r → IsCounted (process_line parse r line)
  unfolding process_line
  process_line-IsCounted r line v = elim (Bool-cases (is_empty (trim line))) [
    | inl blank ↦ rw blank v
    | inr full ↦ rw full (process_data-IsCounted r _ v)
  ]

  drain-IsCounted :
      (r : Reader) (line buffer : Text) → IsCounted r → IsCounted (drain parse r line buffer).0
  unfolding drain
  drain-IsCounted r line [] v = v
  drain-IsCounted r line (c ∷ buffer) v = elim (Bool-cases (c == 10)) [
    | inl newline ↦
        rw (newline, drain)
          (drain-IsCounted (process_line parse r line) [] buffer (process_line-IsCounted r line v))
    | inr within ↦ rw (within, drain) (drain-IsCounted r (line ++ c ∷ []) buffer v)
  ]

  module _ (from_utf8 : List ℕ → Result Text Text) where
    read-IsCounted :
        (r : Reader) (buffer : Text) (upstream : List (Result (List ℕ) Text))
        → IsCounted r
        → IsCounted (read parse from_utf8 r buffer upstream)
    unfolding read is_done
    read-IsCounted r buffer [] v = v
    read-IsCounted r buffer (err e ∷ upstream) v = emit-IsCounted r (err (unavailable e)) refl v
    read-IsCounted r buffer (ok bytes ∷ upstream) v = elim (Result-cases (from_utf8 bytes)) [
      | inl (text, decoded) ↦
          rw (decoded, read)
            (read-IsCounted (drain parse r [] (buffer ++ text)).0
              (drain parse r [] (buffer ++ text)).1 upstream
              (drain-IsCounted r [] (buffer ++ text) v))
      | inr (e, failed) ↦ rw (failed, read) (emit-IsCounted r (err (invalid_response e)) refl v)
    ]

    -- Whatever the network and the provider send, errors included, a stream that is read to its end
    -- yields exactly one chunk that says that it is the last.
    pub stream_chat-one_done :
        (upstream : List (Result (List ℕ) Text))
        → done_count (stream_chat parse from_utf8 upstream) ≡ 1
    unfolding stream_chat done_count
    stream_chat-one_done upstream =
        emit_done-counts (read parse from_utf8 start [] upstream) (lit "stop")
          (read-IsCounted start [] upstream refl)
