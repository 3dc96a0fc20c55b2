-- ===== src/Openai/Stream/Chunking.antt =====
-- The buffer of src/backend/openai.rs: where the network cuts the events does not matter.
use rust_llm_inference_gatew.Prelude.{
  ℕ, ◌≡◌, refl, sym, ap, ◌∙◌, false, List, [], ◌∷◌, ◌++◌, map, append_assoc, append-nil, Result, ok,
  ◌==◌, Bool-cases, inl, inr, All, All-append,
}
use rust_llm_inference_gatew.Text.{Text, lit}
use rust_llm_inference_gatew.Openai.{OpenAiStreamResponse}
use rust_llm_inference_gatew.Openai.Stream.{
  Reader, start, process_line, drain, read, emit_done, stream_chat,
}

abbrev pub flatten : List Text → Text
flatten [] = []
flatten (t ∷ ts) = t ++ flatten ts

abbrev IsWithin : ℕ → Type 0
IsWithin c = (c == 10) ≡ false

module _ (parse : Text → Result OpenAiStreamResponse Text) where
  drain-append :
      (r : Reader) (line s t : Text)
      → drain parse r line (s ++ t)
        ≡ drain parse (drain parse r line s).0 (drain parse r line s).1 t
  unfolding drain
  drain-append r line [] t = refl
  drain-append r line (c ∷ s) t = elim (Bool-cases (c == 10)) [
    | inl newline ↦ rw (newline, drain) (drain-append (process_line parse r line) [] s t)
    | inr within ↦ rw (within, drain) (drain-append r (line ++ c ∷ []) s t)
  ]

  -- What is left in the buffer is within a line,
  drain-IsWithin :
      (r : Reader) (line s : Text) → All IsWithin line → All IsWithin (drain parse r line s).1
  unfolding drain
  drain-IsWithin r line [] v = v
  drain-IsWithin r line (c ∷ s) v = elim (Bool-cases (c == 10)) [
    | inl newline ↦ rw (newline, drain) (drain-IsWithin (process_line parse r line) [] s tt)
    | inr within ↦
        rw (within, drain)
          (drain-IsWithin r (line ++ c ∷ []) s (All-append IsWithin line (c ∷ []) v (within, tt)))
  ]

  -- so that reading it again makes no event.
  drain-within :
      (r : Reader) (line rest t : Text)
      → All IsWithin rest
      → drain parse r line (rest ++ t) ≡ drain parse r (line ++ rest) t
  unfolding drain
  drain-within r line [] t v = ap (λ l. drain parse r l t) (sym (append-nil line))
  drain-within r line (c ∷ rest) t (w, v) =
      rw (w, drain)
        (drain-within r (line ++ c ∷ []) rest t v
          ∙ ap (λ l. drain parse r l t) (append_assoc line (c ∷ []) rest))

  drain-twice :
      (r : Reader) (buffer s t : Text)
      → let once = drain parse r [] (buffer ++ s) in
        drain parse once.0 [] (once.1 ++ t) ≡ drain parse r [] (buffer ++ (s ++ t))
  drain-twice r buffer s t =
      let once = drain parse r [] (buffer ++ s) in
      drain-within once.0 [] once.1 t (drain-IsWithin r [] (buffer ++ s) tt)
      ∙ sym (drain-append r [] (buffer ++ s) t)
      ∙ ap (drain parse r []) (append_assoc buffer s t)

  module _ (from_utf8 : List ℕ → Result Text Text) (encode : Text → List ℕ)
      (from_utf8-encode : (t : Text) → from_utf8 (encode t) ≡ ok t) where
    read-encode :
        (r : Reader) (buffer t : Text) (upstream : List (Result (List ℕ) Text))
        → read parse from_utf8 r buffer (ok (encode t) ∷ upstream)
          ≡ read parse from_utf8
              (drain parse r [] (buffer ++ t)).0
              (drain parse r [] (buffer ++ t)).1
              upstream
    unfolding read
    read-encode r buffer t upstream = rw (from_utf8-encode t, read) refl

    read-flatten :
        (r : Reader) (buffer t : Text) (ts : List Text)
        → read parse from_utf8 r buffer (map (λ s. ok (encode s)) (t ∷ ts))
          ≡ (drain parse r [] (buffer ++ (t ++ flatten ts))).0
    unfolding read
    read-flatten r buffer t [] =
        read-encode r buffer t []
        ∙ ap (λ s. (drain parse r [] (buffer ++ s)).0) (sym (append-nil t))
    read-flatten r buffer t (t' ∷ ts) =
        let once = drain parse r [] (buffer ++ t) in
        read-encode r buffer t (map (λ s. ok (encode s)) (t' ∷ ts))
        ∙ read-flatten once.0 once.1 t' ts
        ∙ ap (λ p. p.0) (drain-twice r buffer t (t' ++ flatten ts))

    -- A stream whose chunks are each well-formed UTF-8 yields what it yields if the same text comes in
    -- one chunk: where the network cuts it does not matter.
    pub stream_chat-flatten :
        (t : Text) (ts : List Text)
        → stream_chat parse from_utf8 (map (λ s. ok (encode s)) (t ∷ ts))
          ≡ stream_chat parse from_utf8 (ok (encode (flatten (t ∷ ts))) ∷ [])
    unfolding stream_chat
    stream_chat-flatten t ts =
        ap (λ r. (emit_done r (lit "stop")).emitted)
          (read-flatten start [] t ts
            ∙ sym (read-encode start [] (flatten (t ∷ ts)) [] ∙ unfold read in refl))
