-- ===== src/Limits/Redis/Reconcile.antt =====
-- `reconcile_tokens_redis` of src/limits.rs, against what the memory backend does to its entry.
use rust_llm_inference_gatew.Prelude.{
  ℕ, ◌+◌, ◌-◌, ◌^◌, ◌<◌, ◌≤◌, ◌≡◌, ◌≢◌, refl, ap, ◌∙◌, sym, arith, some, true, false, ◌==◌,
  Bool-cases, inl, inr, if◌then◌else◌,
}
use rust_llm_inference_gatew.Prelude.Int.{
  ℤ, pos, negsuc, ◌+ℤ◌, ◌-ℤ◌, ltb_ℤ, eqb_ℤ, as_i64, as_i64-pos,
}
use rust_llm_inference_gatew.Text.{Text, text_eq}
use rust_llm_inference_gatew.HashMap.{HashMap, get}
use rust_llm_inference_gatew.Limits.Snapshot.{KeyUsage}
use rust_llm_inference_gatew.Limits.{adjust, reconcile_tokens, refresh_windows, usage_or_new}
use rust_llm_inference_gatew.Limits.Windows.{
  IsCurrent, refresh_windows-IsCurrent, refresh_windows_of_current,
}
use rust_llm_inference_gatew.Limits.Quota.{current_usage}
use rust_llm_inference_gatew.Limits.Reconcile.{reconcile_tokens-entry}
use rust_llm_inference_gatew.Limits.Redis.{
  Redis, Keys, minute_ttl, day_ttl, window_keys, adjust_counter, adjust_counters,
  reconcile_tokens_redis,
}
use rust_llm_inference_gatew.Limits.Redis.Counters.{
  IsI64, IsRedis, AreDistinct, window_keys-AreDistinct, minute_ttl-pos, day_ttl-pos,
}
use rust_llm_inference_gatew.Limits.Redis.Script.{Holds}
use rust_llm_inference_gatew.Limits.Redis.Decision.{Mirrors, pos-IsI64}

-ℤ_negated : (a d : ℤ) → a -ℤ (pos 0 -ℤ d) ≡ a +ℤ d
unfolding ◌+ℤ◌ ◌-ℤ◌
-ℤ_negated a (pos n) = ground arith
-ℤ_negated a (negsuc n) = ground arith

module _ (R : Redis) (v : IsRedis R) where
  adjust_counter_self :
      (s : R.State) (key : Text) (d : ℤ) {n : ℤ}
      → R.count s key ≡ n
      → IsI64 (n +ℤ d)
      → R.count (adjust_counter R s key d) key ≡ n +ℤ d
  unfolding adjust_counter
  adjust_counter_self s key d {n} e bound = elim (Bool-cases (ltb_ℤ (pos 0) d)) [
    | inl up ↦ rw up ((v.incr_by-self s key d (rw e bound)).0 ∙ ap (λ m. m +ℤ d) e)
    | inr down ↦
        let back = ap (λ m. m -ℤ (pos 0 -ℤ d)) e ∙ -ℤ_negated n d in
        rw down (v.decr_by-self s key (pos 0 -ℤ d) (rw back bound) ∙ back)
  ]

  adjust_counter_other :
      (s : R.State) (key : Text) (d : ℤ) (j : Text)
      → text_eq key j ≡ false
      → R.count (adjust_counter R s key d) j ≡ R.count s j
  unfolding adjust_counter
  adjust_counter_other s key d j other = elim (Bool-cases (ltb_ℤ (pos 0) d)) [
    | inl up ↦ rw up (v.incr_by-other s key d j other)
    | inr down ↦ rw down (v.decr_by-other s key (pos 0 -ℤ d) j other)
  ]

  adjust_counters-Holds :
      (s : R.State) (k : Keys) (d : ℤ) (now : ℕ) (req tok_min tok_day : ℤ)
      → AreDistinct k
      → IsI64 (tok_min +ℤ d)
      → IsI64 (tok_day +ℤ d)
      → Holds R s k req tok_min tok_day
      → Holds R (adjust_counters R s k d now) k req (tok_min +ℤ d) (tok_day +ℤ d)
  unfolding adjust_counters
  adjust_counters-Holds s k d now req tok_min tok_day apart b_min b_day h =
      let s1 = adjust_counter R s k.tok_min_key d in
      let s2 = adjust_counter R s1 k.tok_day_key d in
      let s3 = R.expire s2 k.tok_min_key (minute_ttl now) in
      let expired = λ (j : Text).
        v.count-expire s3 k.tok_day_key (day_ttl now) j (day_ttl-pos now)
        ∙ v.count-expire s2 k.tok_min_key (minute_ttl now) j (minute_ttl-pos now) in
      record {
        requests =
            expired k.req_key
            ∙ adjust_counter_other s1 k.tok_day_key d k.req_key apart.day_req
            ∙ adjust_counter_other s k.tok_min_key d k.req_key apart.min_req
            ∙ h.requests;
        minute =
            expired k.tok_min_key
            ∙ adjust_counter_other s1 k.tok_day_key d k.tok_min_key apart.day_min
            ∙ adjust_counter_self s k.tok_min_key d h.minute b_min;
        day =
            expired k.tok_day_key
            ∙ adjust_counter_self s1 k.tok_day_key d
                (adjust_counter_other s k.tok_min_key d k.tok_day_key apart.min_day ∙ h.day) b_day;
      }

-- The counters can be corrected without passing `i64` or 0.
pub record IsCorrectable (estimated actual : ℕ) (u : KeyUsage) : Type 0 where
  pub minute_charged : estimated ≤ u.tokens_in_minute
  pub day_charged : estimated ≤ u.tokens_in_day
  pub minute_bound : u.tokens_in_minute + actual < 2 ^ 63
  pub day_bound : u.tokens_in_day + actual < 2 ^ 63

-- The difference of the two counts, as the code computes it.
corrected :
    (estimated actual n : ℕ)
    → estimated ≤ n
    → n + actual < 2 ^ 63
    → pos n +ℤ (as_i64 actual -ℤ as_i64 estimated) ≡ pos (n + actual - estimated)
unfolding ◌+ℤ◌ ◌-ℤ◌
corrected estimated actual n h b =
    rw (as_i64-pos actual (omega arith), as_i64-pos estimated (omega arith)) (ground arith)

no_difference :
    (estimated actual : ℕ)
    → estimated < 2 ^ 63
    → actual < 2 ^ 63
    → eqb_ℤ (as_i64 actual -ℤ as_i64 estimated) (pos 0) ≡ (estimated == actual)
unfolding ◌-ℤ◌
no_difference estimated actual he ha =
    rw (as_i64-pos actual (omega (arith, ha)), as_i64-pos estimated (omega (arith, he)))
      (ground arith)

-- The entry with both token counts corrected by plain arithmetic.
abbrev correct : ℕ → ℕ → KeyUsage → KeyUsage
correct estimated actual u = record u {
  tokens_in_minute = u.tokens_in_minute + actual - estimated;
  tokens_in_day = u.tokens_in_day + actual - estimated;
}

adjust-correct :
    (estimated actual : ℕ) (u : KeyUsage)
    → IsCorrectable estimated actual u
    → adjust estimated actual u ≡ correct estimated actual u
unfolding adjust
adjust-correct estimated actual u c = ground arith

adjust-IsCurrent :
    (estimated actual now : ℕ) (u : KeyUsage)
    → IsCurrent now u
    → IsCurrent now (adjust estimated actual u)
unfolding adjust
adjust-IsCurrent estimated actual now u c = ground arith

-- The entry of a key that has one, after a reconciliation that has something to correct.
corrected_entry :
    (m : HashMap KeyUsage) (key : Text) (estimated actual now : ℕ) (u : KeyUsage)
    → get m key ≡ some u
    → estimated ≢ actual
    → IsCorrectable estimated actual (current_usage m key now)
    → current_usage (reconcile_tokens m key estimated actual now) key now
      ≡ correct estimated actual (current_usage m key now)
unfolding usage_or_new
corrected_entry m key estimated actual now u held differ c =
    let w = current_usage m key now in
    let entry : w ≡ refresh_windows now u = rw held refl in
    ap (λ found. refresh_windows now (usage_or_new now found))
      (reconcile_tokens-entry m key estimated actual now u held differ
        ∙ ap (λ x. some (adjust estimated actual x)) (sym entry))
    ∙ refresh_windows_of_current now (adjust estimated actual w)
        (adjust-IsCurrent estimated actual now w (refresh_windows-IsCurrent now _))
    ∙ adjust-correct estimated actual w c

reconcile_tokens_same :
    (m : HashMap KeyUsage) (key : Text) (estimated actual now : ℕ)
    → (estimated == actual) ≡ true
    → reconcile_tokens m key estimated actual now ≡ m
unfolding reconcile_tokens
reconcile_tokens_same m key estimated actual now same = rw same refl

reconcile_tokens_redis_connected :
    (R : Redis) (s : R.State) (prefix key : Text) (estimated actual now : ℕ)
    → let diff = as_i64 actual -ℤ as_i64 estimated in
      reconcile_tokens_redis R true s prefix key estimated actual now ≡ (
        if eqb_ℤ diff (pos 0) then s else adjust_counters R s (window_keys prefix key now) diff now)
unfolding reconcile_tokens_redis
reconcile_tokens_redis_connected R s prefix key estimated actual now = refl

-- Where the counters of Redis mirror the entry of the key and cover the estimate, a reconciliation
-- over a connection leaves counters that mirror the entry that the memory backend leaves.
pub reconcile_tokens_redis-agrees :
    (R : Redis) (s : R.State) (m : HashMap KeyUsage) (prefix key : Text) (estimated actual now : ℕ)
    (u : KeyUsage)
    → IsRedis R
    → get m key ≡ some u
    → IsCorrectable estimated actual (current_usage m key now)
    → Mirrors R s (window_keys prefix key now) (current_usage m key now)
    → Mirrors R
        (reconcile_tokens_redis R true s prefix key estimated actual now)
        (window_keys prefix key now)
        (current_usage (reconcile_tokens m key estimated actual now) key now)
reconcile_tokens_redis-agrees R s m prefix key estimated actual now u v held c mirrors =
    let w = current_usage m key now in
    let run = reconcile_tokens_redis_connected R s prefix key estimated actual now in
    let test =
      no_difference estimated actual (omega (arith, c.minute_charged, c.minute_bound))
        (omega (arith, c.minute_bound)) in
    let minute = corrected estimated actual w.tokens_in_minute c.minute_charged c.minute_bound in
    let day = corrected estimated actual w.tokens_in_day c.day_charged c.day_bound in
    elim (Bool-cases (estimated == actual)) [
      | inl same ↦
          rw (run, test, same, reconcile_tokens_same m key estimated actual now same) mirrors
      | inr differ ↦
          let unequal : estimated ≢ actual = ground arith in
          let after =
            adjust_counters-Holds R v s (window_keys prefix key now) _ now _ _ _
              (window_keys-AreDistinct prefix key now)
              (rw minute (pos-IsI64 _ (omega (arith, c.minute_bound))))
              (rw day (pos-IsI64 _ (omega (arith, c.day_bound)))) mirrors in
          rw (run, test, differ, corrected_entry m key estimated actual now u held unequal c)
            (record {
              requests = after.requests;
              minute = after.minute ∙ minute;
              day = after.day ∙ day;
            })
    ]
