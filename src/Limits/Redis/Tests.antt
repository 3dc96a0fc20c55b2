-- ===== src/Limits/Redis/Tests.antt =====
-- Runs of the Redis backend on a small policy, and the theorems at those runs.
use rust_llm_inference_gatew.Prelude.{◌≡◌, refl, [], ◌∷◌, true, if◌then◌else◌, arith}
use rust_llm_inference_gatew.Prelude.Int.{ℤ, pos, ◌+ℤ◌, ◌-ℤ◌}
use rust_llm_inference_gatew.Text.{Text, lit, text_eq, text_eq_refl}
use rust_llm_inference_gatew.HashMap.{HashMap, get}
use rust_llm_inference_gatew.Limits.Snapshot.{
  RatePolicy, KeyUsage, current_minute_start, current_day_start,
}
use rust_llm_inference_gatew.Limits.{
  usage_or_new, refresh_windows, check_and_consume_memory, reconcile_tokens,
}
use rust_llm_inference_gatew.Limits.Quota.{current_usage}
use rust_llm_inference_gatew.Text.Decimal.{to_decimal}
use rust_llm_inference_gatew.Limits.Redis.{
  Redis, window_keys, minute_key, day_key, runs, check_and_consume_redis, reconcile_tokens_redis,
}
use rust_llm_inference_gatew.Limits.Redis.Counters.{IsRedis}
use rust_llm_inference_gatew.Limits.Redis.Decision.{Mirrors, decision}
use rust_llm_inference_gatew.Limits.Redis.Agreement.{check_and_consume_redis-agrees}
use rust_llm_inference_gatew.Limits.Redis.Reconcile.{reconcile_tokens_redis-agrees}

-- A Redis whose counters are a function and never expire.
abbrev counters : Redis
counters = record {
  State = Text → ℤ;
  count = λ s key. s key;
  incr_by = λ s key d. (λ j. if text_eq key j then s key +ℤ d else s j, s key +ℤ d);
  decr_by = λ s key d. (λ j. if text_eq key j then s key -ℤ d else s j, s key -ℤ d);
  expire = λ s key ttl. s;
  number = λ n. n;
}

counters-IsRedis : IsRedis counters
counters-IsRedis = record {
  incr_by-self = λ s key d bound. (rw (text_eq_refl key) refl, refl);
  incr_by-other = λ s key d j other. rw other refl;
  decr_by-self = λ s key d bound. rw (text_eq_refl key) refl;
  decr_by-other = λ s key d j other. rw other refl;
  count-expire = λ s key ttl j positive. refl;
  number-exact = λ n exact. refl;
}

abbrev policy : RatePolicy
policy = record { requests_per_minute = 3; tokens_per_minute = 1000; tokens_per_day = 10000 }

abbrev key : Text
key = lit "k1"

abbrev prefix : Text
prefix = lit "gw"

abbrev used : KeyUsage
used = record {
  minute_started_at = 60;
  day_started_at = 0;
  requests_in_minute = 2;
  tokens_in_minute = 150;
  tokens_in_day = 150;
}

abbrev busy : HashMap KeyUsage
busy = record { entries = (key, used) ∷ [] }

-- What Redis holds for the same key at 70.
abbrev busy_counters : Text → ℤ
busy_counters j = if text_eq j (lit "gw:rl:k1:m:60:req") then pos 2 else pos 150

busy-Mirrors :
    Mirrors counters busy_counters (window_keys prefix key 70) (current_usage busy key 70)
unfolding window_keys minute_key day_key current_minute_start current_day_start to_decimal lit
    text_eq usage_or_new refresh_windows get
busy-Mirrors = record { requests = refl; minute = refl; day = refl }

check_and_consume_redis-agrees_example :
    let redis = check_and_consume_redis counters runs busy_counters prefix key policy 25 70 in
    let memory = check_and_consume_memory busy key policy 25 70 in
    (decision redis.1 ≡ decision memory.1)
    × Mirrors counters redis.0 (window_keys prefix key 70) (current_usage memory.0 key 70)
unfolding usage_or_new refresh_windows get text_eq lit
check_and_consume_redis-agrees_example =
    check_and_consume_redis-agrees counters busy_counters busy prefix key policy 25 70
      counters-IsRedis
      (record {
        requests_limit = omega arith;
        minute_limit = omega arith;
        day_limit = omega arith;
        requests_count = omega arith;
        minute_count = omega arith;
        day_count = omega arith;
      })
      busy-Mirrors

reconcile_tokens_redis-agrees_example :
    Mirrors counters
      (reconcile_tokens_redis counters true busy_counters prefix key 100 40 70)
      (window_keys prefix key 70)
      (current_usage (reconcile_tokens busy key 100 40 70) key 70)
unfolding usage_or_new refresh_windows get text_eq lit
reconcile_tokens_redis-agrees_example =
    reconcile_tokens_redis-agrees counters busy_counters busy prefix key 100 40 70 used
      counters-IsRedis refl
      (record {
        minute_charged = omega arith;
        day_charged = omega arith;
        minute_bound = omega arith;
        day_bound = omega arith;
      })
      busy-Mirrors
