-- ===== src/Limits/Trace.antt =====
-- Sequences of calls on the in-memory limiter of src/limits.rs, one policy for all keys.
pub mod Budget
pub mod Isolation
use rust_llm_inference_gatew.Prelude.{
  ℕ, ◌+◌, ◌-◌, ◌≤◌, ◌<◌, ◌≡◌, refl, ◌≢◌, ap, ◌∙◌, inl, inr, Bool, true, false, ◌&&◌, Option, none,
  some, List, [], ◌∷◌, Result, ok, err, arith, u32_max, u64_max, Bool-cases, Option-cases, All,
  if◌then◌else◌, ◌==◌,
}
use rust_llm_inference_gatew.Text.{Text, text_eq, text_eq_iff}
use rust_llm_inference_gatew.HashMap.{HashMap, get, get-insert}
use rust_llm_inference_gatew.Limits.Snapshot.{
  RatePolicy, KeyUsage, RateLimitSnapshot, RateLimitError, current_minute_start, current_day_start,
}
use rust_llm_inference_gatew.Limits.{
  refresh_windows, usage_or_new, consume, check_and_consume_memory, adjust, reconcile_tokens,
}

-- The calls that the handlers make of the limiter.
pub data Call : Type 0 where
  consumes : Text → ℕ → Call
  reconciles : Text → ℕ → ℕ → Call

-- A call, with the time at which it reads the clock.
abbrev pub TimedCall : Type 0
TimedCall = ℕ × Call

pub step : RatePolicy → HashMap KeyUsage → TimedCall → HashMap KeyUsage
step p m (now, consumes key tokens) = (check_and_consume_memory m key p tokens now).0
step p m (now, reconciles key estimated actual) = reconcile_tokens m key estimated actual now

pub run : RatePolicy → HashMap KeyUsage → List TimedCall → HashMap KeyUsage
unfolding step
run p m [] = m
run p m (c ∷ cs) = run p (step p m c) cs

abbrev pub is_ok : Result RateLimitSnapshot RateLimitError → Bool
is_ok (ok s) = true
is_ok (err e) = false

-- The tokens of an admitted call of the key `j`.
pub weight : (ℕ → ℕ) → RatePolicy → HashMap KeyUsage → Text → TimedCall → ℕ
weight w p m j (now, consumes key tokens) =
    if text_eq key j && is_ok (check_and_consume_memory m key p tokens now).1 then w tokens else 0
weight w p m j (now, reconciles key estimated actual) = 0

-- The weights of the calls of `j` that the limiter admits, added up.
pub total_admitted : (ℕ → ℕ) → RatePolicy → HashMap KeyUsage → Text → List TimedCall → ℕ
unfolding weight step
total_admitted w p m j [] = 0
total_admitted w p m j (c ∷ cs) = weight w p m j c + total_admitted w p (step p m c) j cs

-- How many requests of `j` are admitted, and their estimated tokens.
abbrev pub admitted_requests : RatePolicy → HashMap KeyUsage → Text → List TimedCall → ℕ
admitted_requests = total_admitted (λ _. 1)

abbrev pub admitted_tokens : RatePolicy → HashMap KeyUsage → Text → List TimedCall → ℕ
admitted_tokens = total_admitted (λ tokens. tokens)

-- What a call makes of the entry of its own key.
pub entry_after : RatePolicy → TimedCall → Option KeyUsage → Option KeyUsage
entry_after p (now, consumes key tokens) o =
    some (consume p tokens now (refresh_windows now (usage_or_new now o))).0
entry_after p (now, reconciles key estimated actual) none = none
entry_after p (now, reconciles key estimated actual) (some u) =
    if estimated == actual then some u else some (adjust estimated actual (refresh_windows now u))

abbrev pub key_of : TimedCall → Text
key_of (now, consumes key tokens) = key
key_of (now, reconciles key estimated actual) = key

get-reconcile_tokens :
    (p : RatePolicy) (m : HashMap KeyUsage) (key : Text) (estimated actual now : ℕ) (j : Text)
    → get (reconcile_tokens m key estimated actual now) j ≡ (
        if text_eq key j
        then entry_after p (now, reconciles key estimated actual) (get m j)
        else get m j)
unfolding entry_after
get-reconcile_tokens p m key estimated actual now j = elim (Option-cases (get m key)) [
  | inl absent ↦ unfold reconcile_tokens in ground (arith, text_eq_iff key j)
  | inr (u, held) ↦
      unfold reconcile_tokens in
      ground (
        arith,
        get-insert m key j (adjust estimated actual (refresh_windows now u)),
        text_eq_iff key j,
      )
]

-- A call writes the entry of its own key and no other.
pub get-step :
    (p : RatePolicy) (m : HashMap KeyUsage) (c : TimedCall) (j : Text)
    → get (step p m c) j ≡ (if text_eq (key_of c) j then entry_after p c (get m j) else get m j)
unfolding step entry_after
get-step p m (now, consumes key tokens) j =
    unfold check_and_consume_memory in
    ground (
      arith,
      get-insert m key j
          (consume p tokens now (refresh_windows now (usage_or_new now (get m key)))).0,
      text_eq_iff key j,
    )
get-step p m (now, reconciles key estimated actual) j =
    get-reconcile_tokens p m key estimated actual now j

-- A call of one key leaves what the limiter holds of every other key as it was.
pub get-step_ne :
    (p : RatePolicy) (m : HashMap KeyUsage) (c : TimedCall) (j : Text)
    → key_of c ≢ j
    → get (step p m c) j ≡ get m j
get-step_ne p m c j n = ground (arith, get-step p m c j, text_eq_iff (key_of c) j)
