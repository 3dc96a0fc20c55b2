-- ===== src/Limits.antt =====
-- src/limits.rs: per-key request and token quotas, with the in-memory backend. The clock is an
-- argument of each call, and the `Mutex` over the map makes each call one step.
pub mod Snapshot
pub mod Redis
pub mod Estimate
pub mod Interface
pub mod Config
pub mod Windows
pub mod Quota
pub mod Reconcile
mod Tests
pub mod Trace
use rust_llm_inference_gatew.Prelude.{
  ℕ, zero, suc, ◌-◌, List, [], ◌∷◌, map, Option, none, some, Result, ok, err, Bool, true, false,
  u64_max, ltb, ◌==◌, saturating_add_u32, saturating_add_u64, saturating_sub, if◌then◌else◌, arith,
}
use rust_llm_inference_gatew.Text.{Text, trim, is_empty, split_whitespace}
use rust_llm_inference_gatew.HashMap.{HashMap, get, insert}
use rust_llm_inference_gatew.Models.{NormalizedMessage, NormalizedChatRequest}
use Snapshot.{
  RatePolicy, KeyUsage, RateLimitSnapshot, RateLimitError, requests_per_minute, tokens_per_minute,
  tokens_per_day, snapshot, current_minute_start, current_day_start,
}

-- `KeyUsage::new`
unfoldable pub new_key_usage : ℕ → KeyUsage
unfolding current_minute_start current_day_start
new_key_usage now = record {
  minute_started_at = current_minute_start now;
  day_started_at = current_day_start now;
  requests_in_minute = 0;
  tokens_in_minute = 0;
  tokens_in_day = 0;
}

refresh_minute : ℕ → KeyUsage → KeyUsage
unfolding current_minute_start
refresh_minute now usage =
    if usage.minute_started_at == current_minute_start now then usage else record usage {
      minute_started_at = current_minute_start now;
      requests_in_minute = 0;
      tokens_in_minute = 0;
    }

refresh_day : ℕ → KeyUsage → KeyUsage
unfolding current_day_start
refresh_day now usage =
    if usage.day_started_at == current_day_start now
    then usage
    else record usage { day_started_at = current_day_start now; tokens_in_day = 0 }

unfoldable pub refresh_windows : ℕ → KeyUsage → KeyUsage
unfolding refresh_minute refresh_day
refresh_windows now usage = refresh_day now (refresh_minute now usage)

-- The guards and the charge of `check_and_consume_memory`, on the entry of the key.
unfoldable pub consume :
    RatePolicy → ℕ → ℕ → KeyUsage → KeyUsage × Result RateLimitSnapshot RateLimitError
consume policy estimated_tokens now usage =
    if ltb policy.requests_per_minute (saturating_add_u32 usage.requests_in_minute 1)
    then (usage, err (requests_per_minute (snapshot policy usage now)))
    else if ltb policy.tokens_per_minute
        (saturating_add_u64 usage.tokens_in_minute estimated_tokens)
    then (usage, err (tokens_per_minute (snapshot policy usage now)))
    else if ltb policy.tokens_per_day (saturating_add_u64 usage.tokens_in_day estimated_tokens)
    then (usage, err (tokens_per_day (snapshot policy usage now)))
    else let charged : KeyUsage = record usage {
      requests_in_minute = saturating_add_u32 usage.requests_in_minute 1;
      tokens_in_minute = saturating_add_u64 usage.tokens_in_minute estimated_tokens;
      tokens_in_day = saturating_add_u64 usage.tokens_in_day estimated_tokens;
    } in
      (charged, ok (snapshot policy charged now))

-- `usage_map.entry(api_key).or_insert_with(|| KeyUsage::new(now))`
unfoldable pub usage_or_new : ℕ → Option KeyUsage → KeyUsage
unfolding new_key_usage
usage_or_new now none = new_key_usage now
usage_or_new now (some usage) = usage

unfoldable pub check_and_consume_memory :
    HashMap KeyUsage
    → Text
    → RatePolicy
    → ℕ
    → ℕ
    → HashMap KeyUsage × Result RateLimitSnapshot RateLimitError
unfolding usage_or_new refresh_windows
check_and_consume_memory usage_map api_key policy estimated_tokens now =
    let (usage, result) =
      consume policy estimated_tokens now
        (refresh_windows now (usage_or_new now (get usage_map api_key))) in
    (insert usage_map api_key usage, result)

-- The correction of `reconcile_tokens_memory`, on the entry of the key.
unfoldable pub adjust : ℕ → ℕ → KeyUsage → KeyUsage
adjust estimated actual usage =
    if ltb estimated actual
    then record usage {
      tokens_in_minute = saturating_add_u64 usage.tokens_in_minute (actual - estimated);
      tokens_in_day = saturating_add_u64 usage.tokens_in_day (actual - estimated);
    }
    else record usage {
      tokens_in_minute = saturating_sub usage.tokens_in_minute (estimated - actual);
      tokens_in_day = saturating_sub usage.tokens_in_day (estimated - actual);
    }

reconcile_entry : HashMap KeyUsage → Text → ℕ → ℕ → ℕ → Option KeyUsage → HashMap KeyUsage
unfolding adjust refresh_windows
reconcile_entry usage_map api_key estimated actual now none = usage_map
reconcile_entry usage_map api_key estimated actual now (some usage) =
    insert usage_map api_key (adjust estimated actual (refresh_windows now usage))

unfoldable pub reconcile_tokens_memory : HashMap KeyUsage → Text → ℕ → ℕ → ℕ → HashMap KeyUsage
unfolding reconcile_entry
reconcile_tokens_memory usage_map api_key estimated actual now =
    reconcile_entry usage_map api_key estimated actual now (get usage_map api_key)

-- `RateLimiter::reconcile_tokens`, whose early return skips the window refresh too.
unfoldable pub reconcile_tokens : HashMap KeyUsage → Text → ℕ → ℕ → ℕ → HashMap KeyUsage
unfolding reconcile_tokens_memory
reconcile_tokens usage_map api_key estimated actual now =
    if estimated == actual
    then usage_map
    else reconcile_tokens_memory usage_map api_key estimated actual now
