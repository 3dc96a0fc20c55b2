-- ===== src/Mock/Agreement.antt =====
-- The stream and the one-shot response of src/backend/mock.rs.
use rust_llm_inference_gatew.Prelude.{
  ◌≡◌, refl, ap, ◌∙◌, List, [], ◌∷◌, ◌++◌, map, append_assoc, append-nil, All,
}
use rust_llm_inference_gatew.Text.{Text, split_whitespace}
use rust_llm_inference_gatew.Text.Words.{
  IsWord, split_whitespace-space, split_whitespace-word, split_whitespace-IsWord,
}
use rust_llm_inference_gatew.Models.{NormalizedChatRequest}
use rust_llm_inference_gatew.Handlers.Streaming.Delivery.{stream_text, text_or_empty}
use rust_llm_inference_gatew.Handlers.Streaming.Charges.{final_tokens, reported_tokens}
use rust_llm_inference_gatew.Mock.{
  spaced, split_for_stream, token_chunk, last_chunk, render_response, execute_chat, stream_chat,
}

flatten : List Text → Text
flatten [] = []
flatten (t ∷ ts) = t ++ flatten ts

split_whitespace-spaced :
    (ws : List Text) → All IsWord ws → split_whitespace (flatten (spaced ws)) ≡ ws
unfolding flatten spaced
split_whitespace-spaced [] v = unfold split_whitespace in refl
split_whitespace-spaced (w ∷ []) (h, v) =
    ap split_whitespace (append-nil w) ∙ split_whitespace-word w h
split_whitespace-spaced (w ∷ w' ∷ ws) (h, v) =
    ap split_whitespace (append_assoc w (32 ∷ []) (flatten (spaced (w' ∷ ws))))
    ∙ split_whitespace-space w (flatten (spaced (w' ∷ ws))) h
    ∙ ap (λ (xs : List Text). w ∷ xs) (split_whitespace-spaced (w' ∷ ws) v)

module _ {F : Type 0} (request : NormalizedChatRequest F) where
  stream_text-tokens :
      (ts : List Text)
      → stream_text (map (token_chunk request) ts ++ last_chunk request ∷ []) ≡ flatten ts
  unfolding stream_text text_or_empty flatten
  stream_text-tokens [] = refl
  stream_text-tokens (t ∷ ts) = ap (λ (x : Text). t ++ x) (stream_text-tokens ts)

  final_tokens-tokens :
      (ts : List Text)
      → final_tokens (map (token_chunk request) ts ++ last_chunk request ∷ [])
        ≡ (execute_chat request).usage.total_tokens ∷ []
  unfolding final_tokens reported_tokens execute_chat
  final_tokens-tokens [] = refl
  final_tokens-tokens (t ∷ ts) = final_tokens-tokens ts

  -- The text of a mock stream has the words of the one-shot response to the same request, and its
  -- last chunk reports the usage of that response.
  pub stream_chat-agrees :
      (split_whitespace (stream_text (stream_chat request))
        ≡ split_whitespace (execute_chat request).content)
      × (final_tokens (stream_chat request) ≡ (execute_chat request).usage.total_tokens ∷ [])
  unfolding stream_chat execute_chat split_for_stream
  stream_chat-agrees =
      let words = split_whitespace (render_response request) in
      (
        ap split_whitespace (stream_text-tokens (spaced words))
            ∙ split_whitespace-spaced words (split_whitespace-IsWord (render_response request)),
        final_tokens-tokens (spaced words),
      )
