-- ===== src/Limits/Snapshot.antt =====
-- src/limits.rs and `RatePolicy` of src/auth.rs: the data of the limiter, its windows and headers.
use rust_llm_inference_gatew.Prelude.{
  ℕ, ◌*◌, ◌/◌, List, [], ◌∷◌, saturating_add_u64, saturating_sub, as_u32,
}
use rust_llm_inference_gatew.Text.{Text, lit}
use rust_llm_inference_gatew.Text.Decimal.{to_decimal}

pub record RatePolicy : Type 0 where
  pub requests_per_minute : ℕ
  pub tokens_per_minute : ℕ
  pub tokens_per_day : ℕ

pub record KeyUsage : Type 0 where
  pub minute_started_at : ℕ
  pub day_started_at : ℕ
  pub requests_in_minute : ℕ
  pub tokens_in_minute : ℕ
  pub tokens_in_day : ℕ

pub record RateLimitSnapshot : Type 0 where
  pub limit_requests_per_minute : ℕ
  pub remaining_requests_per_minute : ℕ
  pub limit_tokens_per_minute : ℕ
  pub remaining_tokens_per_minute : ℕ
  pub limit_tokens_per_day : ℕ
  pub remaining_tokens_per_day : ℕ
  pub reset_requests_per_minute : ℕ
  pub reset_tokens_per_day : ℕ

pub data RateLimitError : Type 0 where
  requests_per_minute tokens_per_minute tokens_per_day : RateLimitSnapshot → RateLimitError

unfoldable pub current_minute_start : ℕ → ℕ
current_minute_start now = now / 60 * 60

unfoldable pub current_day_start : ℕ → ℕ
current_day_start now = now / 86400 * 86400

unfoldable pub snapshot_from_counts : RatePolicy → ℕ → ℕ → ℕ → ℕ → RateLimitSnapshot
unfolding current_minute_start current_day_start
snapshot_from_counts policy request_count tokens_minute_count tokens_day_count now = record {
  limit_requests_per_minute = policy.requests_per_minute;
  remaining_requests_per_minute = saturating_sub policy.requests_per_minute (as_u32 request_count);
  limit_tokens_per_minute = policy.tokens_per_minute;
  remaining_tokens_per_minute = saturating_sub policy.tokens_per_minute tokens_minute_count;
  limit_tokens_per_day = policy.tokens_per_day;
  remaining_tokens_per_day = saturating_sub policy.tokens_per_day tokens_day_count;
  reset_requests_per_minute = saturating_add_u64 (current_minute_start now) 60;
  reset_tokens_per_day = saturating_add_u64 (current_day_start now) 86400;
}

unfoldable pub snapshot : RatePolicy → KeyUsage → ℕ → RateLimitSnapshot
unfolding snapshot_from_counts
snapshot policy usage now =
    snapshot_from_counts policy usage.requests_in_minute usage.tokens_in_minute usage.tokens_in_day
      now

-- `RateLimitSnapshot::to_header_pairs`
unfoldable pub to_header_pairs : RateLimitSnapshot → List (Text × Text)
to_header_pairs s =
    (lit "x-ratelimit-limit-requests-minute", to_decimal s.limit_requests_per_minute)
    ∷ (lit "x-ratelimit-remaining-requests-minute", to_decimal s.remaining_requests_per_minute)
    ∷ (lit "x-ratelimit-limit-tokens-minute", to_decimal s.limit_tokens_per_minute)
    ∷ (lit "x-ratelimit-remaining-tokens-minute", to_decimal s.remaining_tokens_per_minute)
    ∷ (lit "x-ratelimit-limit-tokens-day", to_decimal s.limit_tokens_per_day)
    ∷ (lit "x-ratelimit-remaining-tokens-day", to_decimal s.remaining_tokens_per_day)
    ∷ (lit "x-ratelimit-reset-requests-minute", to_decimal s.reset_requests_per_minute)
    ∷ (lit "x-ratelimit-reset-tokens-day", to_decimal s.reset_tokens_per_day)
    ∷ []

-- `RateLimitError::message`
unfoldable pub error_message : RateLimitError → Text
error_message (requests_per_minute s) = lit "requests per minute quota exceeded"
error_message (tokens_per_minute s) = lit "tokens per minute quota exceeded"
error_message (tokens_per_day s) = lit "tokens per day quota exceeded"

-- `RateLimitError::snapshot`
unfoldable pub error_snapshot : RateLimitError → RateLimitSnapshot
error_snapshot (requests_per_minute s) = s
error_snapshot (tokens_per_minute s) = s
error_snapshot (tokens_per_day s) = s
