-- ===== src/Handlers/Streaming/Leader.antt =====
-- The leader of src/handlers.rs stops after the last chunk of its stream.
use rust_llm_inference_gatew.Prelude.{◌≡◌, refl, true, false, List, [], ◌∷◌, Result, ok}
use rust_llm_inference_gatew.Backend.{BackendError}
use rust_llm_inference_gatew.Models.{BackendChunk}
use rust_llm_inference_gatew.Handlers.Streaming.{lead_stream}

module _ (chunk : BackendChunk) (rest : List (Result BackendChunk BackendError)) where
  pub lead_stream_last :
      chunk.done ≡ true → (lead_stream (ok chunk ∷ rest)).published ≡ ok chunk ∷ []
  unfolding lead_stream
  lead_stream_last last = simp last refl

  pub lead_stream_more :
      chunk.done ≡ false
      → (lead_stream (ok chunk ∷ rest)).published ≡ ok chunk ∷ (lead_stream rest).published
  unfolding lead_stream
  lead_stream_more more = simp more refl
