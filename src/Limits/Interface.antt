-- ===== src/Limits/Interface.antt =====
-- `RateLimiter` of src/limits.rs, as the handlers use it: one of its two backends.
use rust_llm_inference_gatew.Prelude.{ℕ, Result}
use rust_llm_inference_gatew.Text.{Text}
use rust_llm_inference_gatew.HashMap.{HashMap}
use rust_llm_inference_gatew.Limits.Snapshot.{
  RatePolicy, KeyUsage, RateLimitSnapshot, RateLimitError,
}
use rust_llm_inference_gatew.Limits.{check_and_consume_memory, reconcile_tokens}

-- The last argument is the clock, in seconds.
pub record RateLimiter : Type 1 where
  pub State : Type 0
  pub check_and_consume :
      State → Text → RatePolicy → ℕ → ℕ → State × Result RateLimitSnapshot RateLimitError
  pub reconcile : State → Text → ℕ → ℕ → ℕ → State

-- `RateLimiter::in_memory`
abbrev pub in_memory : RateLimiter
in_memory = record {
  State = HashMap KeyUsage;
  check_and_consume = check_and_consume_memory;
  reconcile = reconcile_tokens;
}
