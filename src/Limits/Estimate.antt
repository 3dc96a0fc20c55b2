-- ===== src/Limits/Estimate.antt =====
-- `estimate_request_tokens` of src/limits.rs. `sum::<u64>()` wraps around in a release build.
use rust_llm_inference_gatew.Prelude.{
  ℕ, map, length, as_u64, sum_u64, saturating_add_u64, if◌then◌else◌,
}
use rust_llm_inference_gatew.Text.{Text, trim, is_empty, split_whitespace}
use rust_llm_inference_gatew.Env.{unwrap_or}
use rust_llm_inference_gatew.Models.{NormalizedMessage, NormalizedChatRequest}

pub rough_token_estimate : Text → ℕ
rough_token_estimate text =
    if is_empty (trim text) then 0 else as_u64 (length (split_whitespace text))

unfoldable pub estimate_request_tokens : {F : Type 0} → NormalizedChatRequest F → ℕ
unfolding rough_token_estimate
estimate_request_tokens request =
    saturating_add_u64
      (sum_u64 (
        map (λ (message : NormalizedMessage). rough_token_estimate message.content)
          request.messages))
      (unwrap_or 256 request.generation.max_tokens)
