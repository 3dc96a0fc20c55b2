-- ===== src/Limits/Tests.antt =====
-- Runs of the limiter, and its theorems at concrete inputs.
use rust_llm_inference_gatew.Prelude.{◌≤◌, ◌≡◌, ◌⊎◌, refl, some, ok, err, [], ◌∷◌, List, arith}
use rust_llm_inference_gatew.Text.{Text, text_eq}
use rust_llm_inference_gatew.HashMap.{HashMap, empty, get, insert}
use rust_llm_inference_gatew.Limits.Snapshot.{
  RatePolicy, KeyUsage, RateLimitError, snapshot, current_minute_start, current_day_start,
}
use rust_llm_inference_gatew.Limits.{
  refresh_windows, usage_or_new, check_and_consume_memory, reconcile_tokens,
}
use rust_llm_inference_gatew.Limits.Quota.{
  IsBounded, Names, charge, current_usage, check_and_consume-decides, Fits,
}
use rust_llm_inference_gatew.Limits.Reconcile.{consume-reconcile, reconcile-after_minute}
use rust_llm_inference_gatew.Limits.Trace.{
  TimedCall, consumes, run, admitted_requests, admitted_tokens,
}
use rust_llm_inference_gatew.Limits.Trace.Budget.{admitted_requests-le, admitted_tokens-le}
use rust_llm_inference_gatew.Limits.Trace.Isolation.{calls_of, run-isolated}

abbrev policy : RatePolicy
policy = record { requests_per_minute = 2; tokens_per_minute = 1000; tokens_per_day = 10000 }

policy-IsBounded : IsBounded policy
policy-IsBounded = record { requests = omega arith; minute = omega arith; day = omega arith }

abbrev key : Text
key = 107 ∷ 49 ∷ []

abbrev other_key : Text
other_key = 107 ∷ 50 ∷ []

abbrev no_usage : HashMap KeyUsage
no_usage = empty

abbrev used : KeyUsage
used = record {
  minute_started_at = 60;
  day_started_at = 0;
  requests_in_minute = 2;
  tokens_in_minute = 150;
  tokens_in_day = 150;
}

abbrev busy : HashMap KeyUsage
busy = record { entries = (key, used) ∷ [] }

check_and_consume-decides_example :
    (Fits policy 10 (current_usage busy key 70)
      × ((check_and_consume_memory busy key policy 10 70).1
          ≡ ok (snapshot policy (charge 10 (current_usage busy key 70)) 70))
      × (get (check_and_consume_memory busy key policy 10 70).0 key
          ≡ some (charge 10 (current_usage busy key 70))))
    ⊎ ((¬ Fits policy 10 (current_usage busy key 70))
        × ((e : RateLimitError) × ((check_and_consume_memory busy key policy 10 70).1 ≡ err e)
            × Names policy 10 (current_usage busy key 70) e
            × (get (check_and_consume_memory busy key policy 10 70).0 key
                ≡ some (current_usage busy key 70))))
check_and_consume-decides_example = check_and_consume-decides busy key policy 10 70 policy-IsBounded

-- Another key is charged in between.
abbrev meanwhile : HashMap KeyUsage
meanwhile =
    (check_and_consume_memory (check_and_consume_memory no_usage key policy 100 70).0 other_key
      policy 30 80).0

consume-reconcile_example :
    get (reconcile_tokens meanwhile key 100 40 95) key
    ≡ some (charge 40 (current_usage no_usage key 70))
unfolding refresh_windows usage_or_new get text_eq check_and_consume_memory insert
consume-reconcile_example =
    consume-reconcile no_usage meanwhile key policy 100 40 70 95 refl policy-IsBounded
      (record { requests = omega arith; minute = omega arith; day = omega arith }) refl refl
      (omega arith) (omega arith)

-- 150 tokens charged in the first minute; 50 more in the second, from which a refund of 120 is taken.
reconcile-after_minute_example :
    (v : KeyUsage) × (get
        (reconcile_tokens (check_and_consume_memory busy key policy 50 130).0 key 150 30 130)
        key
      ≡ some v)
    × (v.tokens_in_minute ≡ 0)
unfolding refresh_windows usage_or_new get text_eq
reconcile-after_minute_example =
    reconcile-after_minute busy key policy 50 150 30 130 used policy-IsBounded refl (omega arith)
      (record { requests = omega arith; minute = omega arith; day = omega arith }) (omega arith)

abbrev calls : List TimedCall
calls =
    (61, consumes key 100)
    ∷ (62, consumes other_key 5)
    ∷ (63, consumes key 100)
    ∷ (64, consumes key 100)
    ∷ []

admitted_requests-le_example : admitted_requests policy no_usage key calls ≤ 2
unfolding current_minute_start current_day_start
admitted_requests-le_example =
    admitted_requests-le policy no_usage key 60 calls (omega arith)
      (refl, (refl, (refl, (refl, tt))))

admitted_tokens-le_example : admitted_tokens policy no_usage key calls ≤ 10000
unfolding current_minute_start current_day_start
admitted_tokens-le_example =
    admitted_tokens-le policy no_usage key 0 calls (omega arith) (refl, (refl, (refl, (refl, tt))))

run-isolated_example :
    get (run policy no_usage calls) other_key
    ≡ get (run policy no_usage (calls_of other_key calls)) other_key
run-isolated_example = run-isolated policy no_usage calls other_key
