-- ===== src/Limits/Trace/Budget.antt =====
-- The quotas of src/limits.rs over whole sequences of calls: what is admitted within one window.
use rust_llm_inference_gatew.Prelude.{
  ℕ, ◌+◌, ◌≤◌, ◌<◌, ◌≡◌, refl, ◌⊎◌, inl, false, Option, none, some, List, [], ◌∷◌, arith, u32_max,
  u64_max, All, if◌then◌else◌, ◌==◌,
}
use rust_llm_inference_gatew.Text.{Text, text_eq_iff}
use rust_llm_inference_gatew.HashMap.{HashMap, get}
use rust_llm_inference_gatew.Limits.Snapshot.{
  RatePolicy, KeyUsage, current_minute_start, current_day_start,
}
use rust_llm_inference_gatew.Limits.{
  refresh_windows, usage_or_new, consume, check_and_consume_memory, adjust,
}
use rust_llm_inference_gatew.Limits.Trace.{
  TimedCall, consumes, reconciles, step, weight, total_admitted, admitted_requests, admitted_tokens,
  is_ok, entry_after, get-step,
}

-- A counter of one key that every call moves by the weight that it admits, and that an admitted
-- call leaves within a limit.
module _ (p : RatePolicy) (j : Text) (w : ℕ → ℕ) (count : Option KeyUsage → ℕ) (limit : ℕ)
    (InWindow : TimedCall → Type 0)
    (moves : (m : HashMap KeyUsage) (c : TimedCall)
      → InWindow c
      → (weight w p m j c + count (get m j) ≡ count (get (step p m c) j))
        × ((weight w p m j c ≡ 0) ⊎ (count (get (step p m c) j) ≤ limit))) where
  total_admitted-zero_or_le :
      (m : HashMap KeyUsage) (cs : List TimedCall)
      → All InWindow cs
      → (total_admitted w p m j cs ≡ 0) ⊎ (total_admitted w p m j cs + count (get m j) ≤ limit)
  unfolding total_admitted
  total_admitted-zero_or_le m [] h = inl refl
  total_admitted-zero_or_le m (c ∷ cs) (h, hs) =
      ground (arith, moves m c h, total_admitted-zero_or_le (step p m c) cs hs)

  total_admitted-le :
      (m : HashMap KeyUsage) (cs : List TimedCall)
      → All InWindow cs
      → total_admitted w p m j cs ≤ limit
  total_admitted-le m cs h = ground (arith, total_admitted-zero_or_le m cs h)

-- The requests counted for the minute that starts at `start`.
requests_at : ℕ → Option KeyUsage → ℕ
requests_at start none = 0
requests_at start (some u) = if u.minute_started_at == start then u.requests_in_minute else 0

current-requests :
    (now : ℕ) (o : Option KeyUsage)
    → ((refresh_windows now (usage_or_new now o)).requests_in_minute
        ≡ requests_at (current_minute_start now) o)
      × ((refresh_windows now (usage_or_new now o)).minute_started_at ≡ current_minute_start now)
unfolding requests_at refresh_windows usage_or_new
current-requests now none = ground arith
current-requests now (some u) = ground arith

consume-requests :
    (p : RatePolicy) (tokens now : ℕ) (u : KeyUsage)
    → p.requests_per_minute < u32_max
    → ((if is_ok (consume p tokens now u).1 then 1 else 0) + u.requests_in_minute
        ≡ (consume p tokens now u).0.requests_in_minute)
      × ((consume p tokens now u).0.minute_started_at ≡ u.minute_started_at)
      × ((is_ok (consume p tokens now u).1 ≡ false)
          ⊎ ((consume p tokens now u).0.requests_in_minute ≤ p.requests_per_minute))
unfolding consume
consume-requests p tokens now u b = ground arith

adjust-requests :
    (estimated actual : ℕ) (u : KeyUsage)
    → ((adjust estimated actual u).requests_in_minute ≡ u.requests_in_minute)
      × ((adjust estimated actual u).minute_started_at ≡ u.minute_started_at)
unfolding adjust
adjust-requests estimated actual u = ground arith

check-consume :
    (m : HashMap KeyUsage) (key : Text) (p : RatePolicy) (tokens now : ℕ)
    → (check_and_consume_memory m key p tokens now).1
      ≡ (consume p tokens now (refresh_windows now (usage_or_new now (get m key)))).1
unfolding check_and_consume_memory
check-consume m key p tokens now = refl

reconcile-requests :
    (p : RatePolicy) (key : Text) (estimated actual now : ℕ) (o : Option KeyUsage)
    → requests_at
        (current_minute_start now)
        (entry_after p (now, reconciles key estimated actual) o)
      ≡ requests_at (current_minute_start now) o
unfolding entry_after requests_at refresh_windows
reconcile-requests p key estimated actual now none = refl
reconcile-requests p key estimated actual now (some u) =
    ground (arith, adjust-requests estimated actual (refresh_windows now u))

abbrev pub InMinute : ℕ → TimedCall → Type 0
InMinute start c = current_minute_start c.0 ≡ start

requests-moves :
    (p : RatePolicy) (j : Text) (start : ℕ)
    → p.requests_per_minute < u32_max
    → (m : HashMap KeyUsage) (c : TimedCall) → InMinute start c
    → (weight (λ _. 1) p m j c + requests_at start (get m j)
        ≡ requests_at start (get (step p m c) j))
      × ((weight (λ _. 1) p m j c ≡ 0)
          ⊎ (requests_at start (get (step p m c) j) ≤ p.requests_per_minute))
unfolding weight entry_after requests_at
requests-moves p j start b m (now, consumes key tokens) h = ground (
  arith,
  get-step p m (now, consumes key tokens) j,
  text_eq_iff key j,
  check-consume m key p tokens now,
  current-requests now (get m key),
  consume-requests p tokens now (refresh_windows now (usage_or_new now (get m key))),
)
requests-moves p j start b m (now, reconciles key estimated actual) h = ground (
  arith,
  get-step p m (now, reconciles key estimated actual) j,
  reconcile-requests p key estimated actual now (get m j),
)

-- Whatever the state, of all calls that fall into one minute, reconciliations among them, the
-- limiter admits at most `requests_per_minute` requests of one key, if that limit is below the
-- largest `u32`.
pub admitted_requests-le :
    (p : RatePolicy) (m : HashMap KeyUsage) (j : Text) (start : ℕ) (cs : List TimedCall)
    → p.requests_per_minute < u32_max
    → All (InMinute start) cs
    → admitted_requests p m j cs ≤ p.requests_per_minute
admitted_requests-le p m j start cs b h =
    total_admitted-le p j (λ _. 1) (requests_at start) p.requests_per_minute (InMinute start)
      (requests-moves p j start b) m cs h

-- The tokens counted for the day that starts at `start`.
tokens_at : ℕ → Option KeyUsage → ℕ
tokens_at start none = 0
tokens_at start (some u) = if u.day_started_at == start then u.tokens_in_day else 0

current-tokens :
    (now : ℕ) (o : Option KeyUsage)
    → ((refresh_windows now (usage_or_new now o)).tokens_in_day
        ≡ tokens_at (current_day_start now) o)
      × ((refresh_windows now (usage_or_new now o)).day_started_at ≡ current_day_start now)
unfolding tokens_at refresh_windows usage_or_new
current-tokens now none = ground arith
current-tokens now (some u) = ground arith

consume-tokens :
    (p : RatePolicy) (tokens now : ℕ) (u : KeyUsage)
    → p.tokens_per_day < u64_max
    → ((if is_ok (consume p tokens now u).1 then tokens else 0) + u.tokens_in_day
        ≡ (consume p tokens now u).0.tokens_in_day)
      × ((consume p tokens now u).0.day_started_at ≡ u.day_started_at)
      × ((is_ok (consume p tokens now u).1 ≡ false)
          ⊎ ((consume p tokens now u).0.tokens_in_day ≤ p.tokens_per_day))
unfolding consume
consume-tokens p tokens now u b = ground arith

-- A request, and no reconciliation, on the day that starts at `start`.
abbrev pub ConsumesInDay : ℕ → TimedCall → Type 0
ConsumesInDay start (now, consumes key tokens) = current_day_start now ≡ start
ConsumesInDay start (now, reconciles key estimated actual) = ⊥

tokens-moves :
    (p : RatePolicy) (j : Text) (start : ℕ)
    → p.tokens_per_day < u64_max
    → (m : HashMap KeyUsage) (c : TimedCall) → ConsumesInDay start c
    → (weight (λ t. t) p m j c + tokens_at start (get m j) ≡ tokens_at start (get (step p m c) j))
      × ((weight (λ t. t) p m j c ≡ 0) ⊎ (tokens_at start (get (step p m c) j) ≤ p.tokens_per_day))
unfolding weight entry_after tokens_at
tokens-moves p j start b m (now, reconciles key estimated actual) h = absurd h
tokens-moves p j start b m (now, consumes key tokens) h = ground (
  arith,
  get-step p m (now, consumes key tokens) j,
  text_eq_iff key j,
  check-consume m key p tokens now,
  current-tokens now (get m key),
  consume-tokens p tokens now (refresh_windows now (usage_or_new now (get m key))),
)

-- Whatever the state, the estimated tokens that the limiter admits for one key by calls without a
-- reconciliation that fall into one day are at most `tokens_per_day`, if that limit is below the
-- largest `u64`.
pub admitted_tokens-le :
    (p : RatePolicy) (m : HashMap KeyUsage) (j : Text) (start : ℕ) (cs : List TimedCall)
    → p.tokens_per_day < u64_max
    → All (ConsumesInDay start) cs
    → admitted_tokens p m j cs ≤ p.tokens_per_day
admitted_tokens-le p m j start cs b h =
    total_admitted-le p j (λ t. t) (tokens_at start) p.tokens_per_day (ConsumesInDay start)
      (tokens-moves p j start b) m cs h
