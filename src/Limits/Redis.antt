-- ===== src/Limits/Redis.antt =====
-- The Redis backend of src/limits.rs, over any Redis: `check_and_consume_redis` with its Lua script, and
-- `reconcile_tokens_redis`. A script runs in one step. The difference of two counts is taken as exact, and
-- keys do not expire during a call.
pub mod Counters
pub mod Script
pub mod Decision
pub mod Agreement
pub mod Reconcile
mod Tests
use rust_llm_inference_gatew.Prelude.{
  ℕ, ◌-◌, Bool, true, false, ◌||◌, Option, none, some, List, [], ◌∷◌, ◌++◌, Result, ok, err, max,
  saturating_add_u64, saturating_sub, ltb, ◌==◌, if◌then◌else◌,
}
use rust_llm_inference_gatew.Prelude.Int.{
  ℤ, pos, negsuc, pos_part, ◌+ℤ◌, ◌-ℤ◌, ltb_ℤ, eqb_ℤ, as_i64,
}
use rust_llm_inference_gatew.Text.{Text, lit}
use rust_llm_inference_gatew.Text.Decimal.{to_decimal}
use rust_llm_inference_gatew.Limits.Snapshot.{
  RatePolicy, RateLimitSnapshot, RateLimitError, requests_per_minute, tokens_per_minute,
  tokens_per_day, snapshot_from_counts, current_minute_start, current_day_start,
}

-- The commands that the gateway sends. A key that is not there counts 0. `incr_by` and `decr_by`
-- return the new count. `number` is the Lua number that an integer becomes, which is a double.
pub record Redis : Type 1 where
  pub State : Type 0
  pub count : State → Text → ℤ
  pub incr_by : State → Text → ℤ → State × ℤ
  pub decr_by : State → Text → ℤ → State × ℤ
  pub expire : State → Text → ℕ → State
  pub number : ℤ → ℤ

pub record Keys : Type 0 where
  pub req_key : Text
  pub tok_min_key : Text
  pub tok_day_key : Text

minute_key : Text → Text → ℕ → Text → Text
unfolding current_minute_start
minute_key prefix api_key now suffix =
    prefix
    ++ (lit ":rl:" ++ (api_key ++ (lit ":m:" ++ (to_decimal (current_minute_start now) ++ suffix))))

day_key : Text → Text → ℕ → Text → Text
unfolding current_day_start
day_key prefix api_key now suffix =
    prefix
    ++ (lit ":rl:" ++ (api_key ++ (lit ":d:" ++ (to_decimal (current_day_start now) ++ suffix))))

-- The keys of the windows that `now` falls into.
pub window_keys : Text → Text → ℕ → Keys
unfolding minute_key day_key
window_keys prefix api_key now = record {
  req_key = minute_key prefix api_key now (lit ":req");
  tok_min_key = minute_key prefix api_key now (lit ":tok");
  tok_day_key = day_key prefix api_key now (lit ":tok");
}

pub minute_ttl : ℕ → ℕ
unfolding current_minute_start
minute_ttl now = max (saturating_sub (saturating_add_u64 (current_minute_start now) 60) now) 1

pub day_ttl : ℕ → ℕ
unfolding current_day_start
day_ttl now = max (saturating_sub (saturating_add_u64 (current_day_start now) 86400) now) 1

-- The script's arguments.
pub record Arguments : Type 0 where
  pub req_inc : ℤ
  pub tok_inc : ℤ
  pub req_limit : ℤ
  pub tok_min_limit : ℤ
  pub tok_day_limit : ℤ
  pub req_ttl : ℕ
  pub tok_min_ttl : ℕ
  pub tok_day_ttl : ℕ

pub arguments : RatePolicy → ℕ → ℕ → Arguments
unfolding minute_ttl day_ttl
arguments policy estimated_tokens now = record {
  req_inc = pos 1;
  tok_inc = as_i64 estimated_tokens;
  req_limit = pos policy.requests_per_minute;
  tok_min_limit = as_i64 policy.tokens_per_minute;
  tok_day_limit = as_i64 policy.tokens_per_day;
  req_ttl = minute_ttl now;
  tok_min_ttl = minute_ttl now;
  tok_day_ttl = day_ttl now;
}

unfoldable pub empty_snapshot : RatePolicy → ℕ → RateLimitSnapshot
empty_snapshot policy now = snapshot_from_counts policy 0 0 0 now

refusal : RatePolicy → ℕ → ℕ → RateLimitSnapshot → RateLimitError
refusal policy req_count tok_min_count snapshot =
    if ltb policy.requests_per_minute req_count
    then requests_per_minute snapshot
    else if ltb policy.tokens_per_minute tok_min_count
    then tokens_per_minute snapshot
    else tokens_per_day snapshot

-- What the reply of the script means. `values[i].max(0) as u64` is the positive part.
pub decode : RatePolicy → ℕ → List ℤ → Result RateLimitSnapshot RateLimitError
unfolding refusal empty_snapshot
decode policy now (allowed ∷ req ∷ tok_min ∷ tok_day ∷ []) =
    let snapshot =
      snapshot_from_counts policy (pos_part req) (pos_part tok_min) (pos_part tok_day) now in
    if eqb_ℤ allowed (pos 1)
    then ok snapshot
    else err (refusal policy (pos_part req) (pos_part tok_min) snapshot)
decode policy now values = ok (empty_snapshot policy now)

-- How a call of Redis goes: there is no connection, the script fails and leaves some state, or it runs.
pub data Link (S : Type 0) : Type 0 where
  no_connection : Link S
  script_fails : S → Link S
  runs : Link S

module _ (R : Redis) where
  -- `local n = redis.call('INCRBY', key, inc)` and the `EXPIRE` after it
  pub charge_counter : R.State → Text → ℤ → ℕ → R.State × ℤ
  charge_counter s key inc ttl =
      let (t, n) = R.incr_by s key inc in
      let count = R.number n in (if eqb_ℤ count inc then R.expire t key ttl else t, count)

  -- The rest of the script, with what the increments returned.
  pub settle_script : Keys → Arguments → R.State → ℤ → ℤ → ℤ → R.State × List ℤ
  settle_script k a s req tok_min tok_day =
      if ltb_ℤ a.req_limit req || ltb_ℤ a.tok_min_limit tok_min || ltb_ℤ a.tok_day_limit tok_day
      then (
        (R.decr_by (R.decr_by (R.decr_by s k.req_key a.req_inc).0 k.tok_min_key a.tok_inc).0
            k.tok_day_key a.tok_inc).0,
        pos 0 ∷ req ∷ tok_min ∷ tok_day ∷ [],
      )
      else (s, pos 1 ∷ req ∷ tok_min ∷ tok_day ∷ [])

  -- `tonumber` of the arguments. A time to live is at most a day, and exact.
  pub to_numbers : Arguments → Arguments
  to_numbers a = record a {
    req_inc = R.number a.req_inc;
    tok_inc = R.number a.tok_inc;
    req_limit = R.number a.req_limit;
    tok_min_limit = R.number a.tok_min_limit;
    tok_day_limit = R.number a.tok_day_limit;
  }

  -- The script over its numbers.
  pub charge_counters : R.State → Keys → Arguments → R.State × List ℤ
  unfolding charge_counter settle_script
  charge_counters s k a =
      let (s1, req) = charge_counter s k.req_key a.req_inc a.req_ttl in
      let (s2, tok_min) = charge_counter s1 k.tok_min_key a.tok_inc a.tok_min_ttl in
      let (s3, tok_day) = charge_counter s2 k.tok_day_key a.tok_inc a.tok_day_ttl in
      settle_script k a s3 req tok_min tok_day

  pub limiter_script : R.State → Keys → Arguments → R.State × List ℤ
  unfolding to_numbers charge_counters
  limiter_script s k a = charge_counters s k (to_numbers a)

  pub check_and_consume_redis :
      Link R.State
      → R.State
      → Text
      → Text
      → RatePolicy
      → ℕ
      → ℕ
      → R.State × Result RateLimitSnapshot RateLimitError
  unfolding limiter_script window_keys arguments decode
  check_and_consume_redis no_connection s prefix api_key policy estimated_tokens now =
      (s, ok (empty_snapshot policy now))
  check_and_consume_redis (script_fails t) s prefix api_key policy estimated_tokens now =
      (t, ok (empty_snapshot policy now))
  check_and_consume_redis runs s prefix api_key policy estimated_tokens now =
      let (t, values) =
        limiter_script s (window_keys prefix api_key now) (arguments policy estimated_tokens now) in
      (t, decode policy now values)

  -- The change of one counter by `diff`: `incr`, or `decr` by `diff.abs()`.
  pub adjust_counter : R.State → Text → ℤ → R.State
  adjust_counter s key diff =
      if ltb_ℤ (pos 0) diff then (R.incr_by s key diff).0 else (R.decr_by s key (pos 0 -ℤ diff)).0

  pub adjust_counters : R.State → Keys → ℤ → ℕ → R.State
  unfolding adjust_counter minute_ttl day_ttl
  adjust_counters s k diff now =
      R.expire
        (R.expire (adjust_counter (adjust_counter s k.tok_min_key diff) k.tok_day_key diff)
          k.tok_min_key (minute_ttl now))
        k.tok_day_key (day_ttl now)

  -- With no connection nothing is done.
  pub reconcile_tokens_redis : Bool → R.State → Text → Text → ℕ → ℕ → ℕ → R.State
  unfolding window_keys adjust_counters
  reconcile_tokens_redis connected s prefix api_key estimated actual now =
      let diff = as_i64 actual -ℤ as_i64 estimated in
      if eqb_ℤ diff (pos 0)
      then s
      else if connected
      then adjust_counters s (window_keys prefix api_key now) diff now
      else s
