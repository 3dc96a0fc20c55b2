-- ===== src/Limits/Redis/Agreement.antt =====
-- The two backends of src/limits.rs take the same decisions while they have counted the same.
use rust_llm_inference_gatew.Prelude.{ℕ, ◌<◌, ◌≡◌, refl, ap, ◌∙◌, arith}
use rust_llm_inference_gatew.Text.{Text}
use rust_llm_inference_gatew.HashMap.{HashMap, get-insert_self}
use rust_llm_inference_gatew.Limits.Snapshot.{RatePolicy, KeyUsage}
use rust_llm_inference_gatew.Limits.{
  consume, check_and_consume_memory, refresh_windows, usage_or_new,
}
use rust_llm_inference_gatew.Limits.Windows.{
  IsCurrent, refresh_windows-IsCurrent, refresh_windows_of_current,
}
use rust_llm_inference_gatew.Limits.Quota.{current_usage}
use rust_llm_inference_gatew.Limits.Redis.{
  Redis, arguments, decode, runs, window_keys, limiter_script, check_and_consume_redis,
}
use rust_llm_inference_gatew.Limits.Redis.Counters.{
  IsRedis, window_keys-AreDistinct, minute_ttl-pos, day_ttl-pos,
}
use rust_llm_inference_gatew.Limits.Redis.Script.{limiter_script-Settled}
use rust_llm_inference_gatew.Limits.Redis.Decision.{
  Mirrors, decision, AreSmall, Settled-agrees, arguments-InRange, to_numbers-arguments,
}

ttls-ArePositive :
    (p : RatePolicy) (tokens now : ℕ)
    → let a = arguments p tokens now in (0 < a.req_ttl) × (0 < a.tok_min_ttl) × (0 < a.tok_day_ttl)
unfolding arguments
ttls-ArePositive p tokens now = (minute_ttl-pos now, minute_ttl-pos now, day_ttl-pos now)

check_and_consume_redis_runs :
    (R : Redis) (s : R.State) (prefix key : Text) (p : RatePolicy) (tokens now : ℕ)
    → let r = limiter_script R s (window_keys prefix key now) (arguments p tokens now) in
      check_and_consume_redis R runs s prefix key p tokens now ≡ (r.0, decode p now r.1)
unfolding check_and_consume_redis
check_and_consume_redis_runs R s prefix key p tokens now = refl

consume-IsCurrent :
    (p : RatePolicy) (tokens now : ℕ) (u : KeyUsage)
    → IsCurrent now u
    → IsCurrent now (consume p tokens now u).0
unfolding consume
consume-IsCurrent p tokens now u c = ground arith

-- What the memory backend leaves for the key, and what it returns.
current_after :
    (m : HashMap KeyUsage) (key : Text) (p : RatePolicy) (tokens now : ℕ)
    → let r = check_and_consume_memory m key p tokens now in
      let c = consume p tokens now (current_usage m key now) in
      (r.1 ≡ c.1) × (current_usage r.0 key now ≡ c.0)
unfolding check_and_consume_memory usage_or_new
current_after m key p tokens now =
    let c = (consume p tokens now (current_usage m key now)).0 in
    (
      refl,
      ap (λ held. refresh_windows now (usage_or_new now held)) (get-insert_self m key c)
          ∙ refresh_windows_of_current now c
              (consume-IsCurrent p tokens now _ (refresh_windows-IsCurrent now _)),
    )

-- If the script runs, counters of Redis that mirror the key's entry in memory, brought up to `now`,
-- give the client the decision that the memory backend gives, for a request whose limits and counts
-- are at most 2^53, where Lua's numbers are exact, and below the largest `u32` for requests: the same snapshot when it is admitted, and the same message when it is refused. After the
-- call the counters mirror the entry that the memory backend leaves.
pub check_and_consume_redis-agrees :
    (R : Redis) (s : R.State) (m : HashMap KeyUsage) (prefix key : Text) (p : RatePolicy)
    (tokens now : ℕ)
    → IsRedis R
    → AreSmall p tokens (current_usage m key now)
    → Mirrors R s (window_keys prefix key now) (current_usage m key now)
    → let redis = check_and_consume_redis R runs s prefix key p tokens now in
      let memory = check_and_consume_memory m key p tokens now in
      (decision redis.1 ≡ decision memory.1)
      × Mirrors R redis.0 (window_keys prefix key now) (current_usage memory.0 key now)
check_and_consume_redis-agrees R s m prefix key p tokens now v b mirrors =
    let k = window_keys prefix key now in
    let u = current_usage m key now in
    let (req_ttl, min_ttl, day_ttl) = ttls-ArePositive p tokens now in
    let settled =
      limiter_script-Settled R v k (window_keys-AreDistinct prefix key now) (arguments p tokens now)
        req_ttl min_ttl day_ttl s _ _ _ (arguments-InRange p tokens now u b) mirrors
        (to_numbers-arguments p tokens now u b R v) in
    let (same, counted) = Settled-agrees p tokens now u b R k _ settled in
    let (replied, left) = current_after m key p tokens now in
    rw (check_and_consume_redis_runs R s prefix key p tokens now, replied, left) (same, counted)
