-- ===== src/Limits/Reconcile.antt =====
-- Replacing an estimate by the tokens that were used, in src/limits.rs.
use rust_llm_inference_gatew.Prelude.{
  ℕ, ◌+◌, ◌-◌, ◌≤◌, ◌<◌, ◌≡◌, refl, ◌≢◌, ap, ◌∙◌, inl, inr, some, ◌==◌, ==_iff, Bool-cases, arith,
  u64_max,
}
use rust_llm_inference_gatew.Text.{Text}
use rust_llm_inference_gatew.HashMap.{HashMap, get, get-insert_self}
use rust_llm_inference_gatew.Limits.Snapshot.{
  RatePolicy, KeyUsage, current_minute_start, current_day_start,
}
use rust_llm_inference_gatew.Limits.{
  refresh_windows, usage_or_new, check_and_consume_memory, adjust, reconcile_tokens,
}
use rust_llm_inference_gatew.Limits.Windows.{
  IsCurrent, refresh_windows-IsCurrent, refresh_windows_of_current,
}
use rust_llm_inference_gatew.Limits.Quota.{
  IsBounded, Fits, charge, current_usage, check_and_consume-admits,
}

-- The entry that a reconciliation of a key with an entry leaves.
pub reconcile_tokens-entry :
    (m : HashMap KeyUsage) (key : Text) (estimated actual now : ℕ) (u : KeyUsage)
    → get m key ≡ some u
    → estimated ≢ actual
    → get (reconcile_tokens m key estimated actual now) key
      ≡ some (adjust estimated actual (refresh_windows now u))
unfolding reconcile_tokens
reconcile_tokens-entry m key estimated actual now u held n =
    ground (arith, get-insert_self m key (adjust estimated actual (refresh_windows now u)))

charge-IsCurrent :
    (tokens now later : ℕ) (u : KeyUsage)
    → current_minute_start later ≡ current_minute_start now
    → current_day_start later ≡ current_day_start now
    → IsCurrent now u
    → IsCurrent later (charge tokens u)
charge-IsCurrent tokens now later u m d c = ground arith

adjust-charge :
    (estimated actual : ℕ) (u : KeyUsage)
    → u.tokens_in_minute + actual ≤ u64_max
    → u.tokens_in_day + actual ≤ u64_max
    → adjust estimated actual (charge estimated u) ≡ charge actual u
unfolding adjust
adjust-charge estimated actual u hm hd = ground arith

-- An admitted request that is reconciled within its minute and day, while the entry of its key is as
-- its admission left it, is charged the tokens that it used, whether the estimate was above or below
-- them, unless a counter would pass the largest `u64`. Calls for other keys may come in between.
pub consume-reconcile :
    (m n : HashMap KeyUsage) (key : Text) (p : RatePolicy) (estimated actual now later : ℕ)
    → get n key ≡ get (check_and_consume_memory m key p estimated now).0 key
    → IsBounded p
    → Fits p estimated (current_usage m key now)
    → current_minute_start later ≡ current_minute_start now
    → current_day_start later ≡ current_day_start now
    → (current_usage m key now).tokens_in_minute + actual ≤ u64_max
    → (current_usage m key now).tokens_in_day + actual ≤ u64_max
    → get (reconcile_tokens n key estimated actual later) key
      ≡ some (charge actual (current_usage m key now))
consume-reconcile m n key p estimated actual now later kept b f sm sd hm hd =
    elim (Bool-cases (estimated == actual)) [
      | inl same ↦
          unfold reconcile_tokens in
          rw same (admitted ∙ ap (λ (t : ℕ). some (charge t u)) ((==_iff estimated actual).0 same))
      | inr differ ↦
          reconcile_tokens-entry n key estimated actual later (charge estimated u) admitted
            (ground arith)
          ∙ ap (λ (v : KeyUsage). some (adjust estimated actual v))
              (refresh_windows_of_current later (charge estimated u)
                (charge-IsCurrent estimated now later u sm sd (refresh_windows-IsCurrent now _)))
          ∙ ap some (adjust-charge estimated actual u hm hd)
    ]
  where
    u : KeyUsage
    u = current_usage m key now

    admitted : get n key ≡ some (charge estimated u)
    admitted = kept ∙ (check_and_consume-admits m key p estimated now b f).1

-- A new minute starts with no tokens charged to it.
refresh_windows-new_minute :
    (now : ℕ) (u : KeyUsage)
    → u.minute_started_at ≢ current_minute_start now
    → (refresh_windows now u).tokens_in_minute ≡ 0
unfolding refresh_windows
refresh_windows-new_minute now u n = ground arith

adjust-refund :
    (estimated actual : ℕ) (u : KeyUsage)
    → actual < estimated
    → (adjust estimated actual u).tokens_in_minute ≡ u.tokens_in_minute - (estimated - actual)
unfolding adjust
adjust-refund estimated actual u h = ground arith

charge-new_minute :
    (m : HashMap KeyUsage) (key : Text) (tokens now : ℕ) (u : KeyUsage)
    → get m key ≡ some u
    → u.minute_started_at ≢ current_minute_start now
    → (charge tokens (current_usage m key now)).tokens_in_minute ≡ tokens
unfolding usage_or_new
charge-new_minute m key tokens now u held n = ground (arith, refresh_windows-new_minute now u n)

-- A refund is taken from the minute in which it arrives. Suppose that the entry of a key was last
-- charged in an earlier minute, that a request of `tokens` is admitted at `now`, and that another
-- request, from an earlier minute, is then reconciled at `now` from `estimated` down to `actual`:
-- the count of the new minute falls to `tokens - (estimated - actual)`, below what it admitted.
pub reconcile-after_minute :
    (m : HashMap KeyUsage) (key : Text) (p : RatePolicy) (tokens estimated actual now : ℕ)
    (u : KeyUsage)
    → IsBounded p
    → get m key ≡ some u
    → u.minute_started_at ≢ current_minute_start now
    → Fits p tokens (current_usage m key now)
    → actual < estimated
    → let n =
        reconcile_tokens (check_and_consume_memory m key p tokens now).0 key estimated actual now in
      (v : KeyUsage) × (get n key ≡ some v) × (v.tokens_in_minute ≡ tokens - (estimated - actual))
reconcile-after_minute m key p tokens estimated actual now u b held n f h = (
  adjust estimated actual (charge tokens c),
  reconcile_tokens-entry _ key estimated actual now (charge tokens c)
        (check_and_consume-admits m key p tokens now b f).1 (omega arith)
      ∙ ap (λ (v : KeyUsage). some (adjust estimated actual v))
          (refresh_windows_of_current now (charge tokens c)
            (charge-IsCurrent tokens now now c refl refl (refresh_windows-IsCurrent now _))),
  adjust-refund estimated actual (charge tokens c) h
      ∙ ap (λ t. t - (estimated - actual)) (charge-new_minute m key tokens now u held n),
)
  where
    c : KeyUsage
    c = current_usage m key now
