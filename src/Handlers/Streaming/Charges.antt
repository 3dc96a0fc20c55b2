-- ===== src/Handlers/Streaming/Charges.antt =====
-- The reconciliations of a streamed request of src/handlers.rs.
use rust_llm_inference_gatew.Prelude.{
  ℕ, ◌≡◌, refl, sym, ap, ◌∙◌, true, false, Option, none, some, List, [], ◌∷◌, ◌++◌, append-nil, map,
  Result, ok, err, if◌then◌else◌, Bool-cases, inl, inr,
}
use rust_llm_inference_gatew.Text.{Text}
use rust_llm_inference_gatew.Backend.{BackendError}
use rust_llm_inference_gatew.Models.{Usage, BackendChunk}
use rust_llm_inference_gatew.Coalescing.Stream.{StreamItem}
use rust_llm_inference_gatew.Handlers.Streaming.Leader.{lead_stream_last, lead_stream_more}
use rust_llm_inference_gatew.Handlers.Streaming.{
  lead_stream, Outbound, start, emit, emit_role, emit_delta, emit_finish, on_chunk, forward,
  outbound, on_usage, Reconciliation,
}

unfoldable pub reported_tokens : Option Usage → List ℕ
reported_tokens none = []
reported_tokens (some usage) = usage.total_tokens ∷ []

-- The usage of the last chunk of a backend's stream, if it comes before any error.
unfoldable pub final_tokens : List (Result BackendChunk BackendError) → List ℕ
unfolding reported_tokens
final_tokens [] = []
final_tokens (ok chunk ∷ rest) =
    let more = final_tokens rest in if chunk.done then reported_tokens chunk.usage else more
final_tokens (err error ∷ rest) = []

-- What one chunk adds.
abbrev tokens_if : BackendChunk → List ℕ
tokens_if chunk = if chunk.done then reported_tokens chunk.usage else []

tokens_if_more : (chunk : BackendChunk) → chunk.done ≡ false → tokens_if chunk ≡ []
tokens_if_more chunk more = rw more refl

module _ (chunk : BackendChunk) (rest : List (Result BackendChunk BackendError)) where
  final_tokens-tokens_if : chunk.done ≡ true → tokens_if chunk ≡ final_tokens (ok chunk ∷ rest)
  unfolding final_tokens
  final_tokens-tokens_if last = rw last refl

  final_tokens_more : chunk.done ≡ false → final_tokens (ok chunk ∷ rest) ≡ final_tokens rest
  unfolding final_tokens
  final_tokens_more more = rw more refl

module _ (response_id : Text) (created : ℕ) (model : Text) (api_key : Text)
    (estimated_tokens : ℕ) where
  emit_role-reconciled :
      (s : Outbound) → (emit_role response_id created model s).reconciled ≡ s.reconciled
  unfolding emit_role
  emit_role-reconciled s = elim (Bool-cases s.emitted_role) [
    | inl holds ↦ rw holds refl
    | inr fails ↦ rw fails refl
  ]

  emit_delta-reconciled :
      (s : Outbound) (delta : Option Text)
      → (emit_delta response_id created model s delta).reconciled ≡ s.reconciled
  unfolding emit_delta emit
  emit_delta-reconciled s none = refl
  emit_delta-reconciled s (some delta) = refl

  -- A reconciliation of the caller's own estimate.
  abbrev pub own : ℕ → Reconciliation
  own tokens = record { api_key = api_key; estimated = estimated_tokens; actual = tokens }

  on_usage-reconciled :
      (s : Outbound) (usage : Option Usage)
      → (on_usage response_id created model api_key estimated_tokens s usage).reconciled
        ≡ s.reconciled ++ map own (reported_tokens usage)
  unfolding on_usage reported_tokens
  on_usage-reconciled s none = sym (append-nil s.reconciled)
  on_usage-reconciled s (some usage) = refl

  on_chunk-reconciled :
      (s : Outbound) (chunk : BackendChunk)
      → (on_chunk response_id created model api_key estimated_tokens s chunk).reconciled
        ≡ s.reconciled ++ map own (tokens_if chunk)
  unfolding on_chunk emit_finish emit
  on_chunk-reconciled s chunk =
      let before : (emit_delta response_id created model (emit_role response_id created model s)
            chunk.delta).reconciled
          ≡ s.reconciled =
        emit_delta-reconciled (emit_role response_id created model s) chunk.delta
        ∙ emit_role-reconciled s in
      elim (Bool-cases chunk.done) [
        | inl last ↦ rw last (
            on_usage-reconciled _ chunk.usage
            ∙ ap (λ (l : List Reconciliation). l ++ map own (reported_tokens chunk.usage)) before)
        | inr more ↦ rw more (before ∙ sym (append-nil s.reconciled))
      ]

  forward-reconciled :
      (s : Outbound) (backend_stream : List (Result BackendChunk BackendError))
      → (forward response_id created model api_key estimated_tokens s
          (lead_stream backend_stream).published).reconciled
        ≡ s.reconciled ++ map own (final_tokens backend_stream)
  unfolding forward lead_stream final_tokens emit
  forward-reconciled s [] = sym (append-nil s.reconciled)
  forward-reconciled s (err error ∷ rest) = sym (append-nil s.reconciled)
  forward-reconciled s (ok chunk ∷ rest) =
      let charged = λ (items : List StreamItem).
        (forward response_id created model api_key estimated_tokens s items).reconciled in
      let with_tokens = λ (l : List ℕ). s.reconciled ++ map own l in
      elim (Bool-cases chunk.done) [
        | inl last ↦
            ap charged (lead_stream_last chunk rest last)
            ∙ on_chunk-reconciled s chunk
            ∙ ap with_tokens (final_tokens-tokens_if chunk rest last)
        | inr more ↦
            ap charged (lead_stream_more chunk rest more)
            ∙ forward-reconciled
                (on_chunk response_id created model api_key estimated_tokens s chunk) rest
            ∙ ap (λ (l : List Reconciliation). l ++ map own (final_tokens rest))
                (on_chunk-reconciled s chunk
                  ∙ ap with_tokens (tokens_if_more chunk more)
                  ∙ append-nil s.reconciled)
            ∙ ap with_tokens (sym (final_tokens_more chunk rest more))
      ]

  -- A caller of a stream reconciles its own estimate, for its own key, with the usage that the last
  -- chunk of the backend's stream reports, once; it does not if that chunk reports none, or if an
  -- error comes first.
  pub outbound-reconciles :
      (backend_stream : List (Result BackendChunk BackendError))
      → (outbound response_id created model api_key estimated_tokens
          (lead_stream backend_stream).published).reconciled
        ≡ map own (final_tokens backend_stream)
  unfolding outbound emit
  outbound-reconciles backend_stream = forward-reconciled start backend_stream
