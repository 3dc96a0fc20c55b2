-- ===== src/Limits/Redis/Script.antt =====
-- One run of the limiter's script of src/limits.rs over the counters of three keys.
use rust_llm_inference_gatew.Prelude.{
  ◌<◌, ◌≡◌, refl, ap, ◌∙◌, Bool, ◌||◌, List, [], ◌∷◌, if◌then◌else◌, Bool-cases, inl, inr, subst,
}
use rust_llm_inference_gatew.Prelude.Int.{ℤ, pos, ◌+ℤ◌, ltb_ℤ}
use rust_llm_inference_gatew.Limits.Redis.{
  Redis, Keys, Arguments, charge_counter, settle_script, to_numbers, charge_counters,
  limiter_script,
}
use rust_llm_inference_gatew.Limits.Redis.Counters.{
  IsI64, IsExact, IsRedis, AreDistinct, charge_counter_self, charge_counter_other, decr_by-restores,
}

-- The counters of `k` hold `req`, `tok_min` and `tok_day`.
pub record Holds (R : Redis) (s : R.State) (k : Keys) (req tok_min tok_day : ℤ) : Type 0 where
  pub requests : R.count s k.req_key ≡ req
  pub minute : R.count s k.tok_min_key ≡ tok_min
  pub day : R.count s k.tok_day_key ≡ tok_day

module _ (a : Arguments) where
  -- What the script's run from counters `req`, `tok_min` and `tok_day` replies.
  abbrev pub reply : Bool → ℤ → ℤ → ℤ → List ℤ
  reply refused req tok_min tok_day =
      (if refused then pos 0 else pos 1)
      ∷ (req +ℤ a.req_inc)
      ∷ (tok_min +ℤ a.tok_inc)
      ∷ (tok_day +ℤ a.tok_inc)
      ∷ []

  -- One increment would pass a limit.
  abbrev pub exceeds : ℤ → ℤ → ℤ → Bool
  exceeds req tok_min tok_day =
      ltb_ℤ a.req_limit (req +ℤ a.req_inc)
      || ltb_ℤ a.tok_min_limit (tok_min +ℤ a.tok_inc)
      || ltb_ℤ a.tok_day_limit (tok_day +ℤ a.tok_inc)

  -- The counters are `i64` before the increments, and exact as doubles after them.
  pub record InRange (req tok_min tok_day : ℤ) : Type 0 where
    pub req_before : IsI64 req
    pub min_before : IsI64 tok_min
    pub day_before : IsI64 tok_day
    pub req_after : IsExact (req +ℤ a.req_inc)
    pub min_after : IsExact (tok_min +ℤ a.tok_inc)
    pub day_after : IsExact (tok_day +ℤ a.tok_inc)

module _ (R : Redis) (k : Keys) (a : Arguments) where
  -- A run that replies `r.1` and leaves `r.0` charged the three counters or none.
  pub record Settled (req tok_min tok_day : ℤ) (r : R.State × List ℤ) : Type 0 where
    pub replies : r.1 ≡ reply a (exceeds a req tok_min tok_day) req tok_min tok_day
    pub counters :
        if exceeds a req tok_min tok_day
        then Holds R r.0 k req tok_min tok_day
        else Holds R r.0 k (req +ℤ a.req_inc) (tok_min +ℤ a.tok_inc) (tok_day +ℤ a.tok_inc)

  -- Both at once, where it is known whether a limit is passed.
  pub Settled-cases :
      (refused : Bool) (req tok_min tok_day : ℤ) (r : R.State × List ℤ)
      → Settled req tok_min tok_day r
      → exceeds a req tok_min tok_day ≡ refused
      → (r.1 ≡ reply a refused req tok_min tok_day)
        × (if refused
            then Holds R r.0 k req tok_min tok_day
            else Holds R r.0 k (req +ℤ a.req_inc) (tok_min +ℤ a.tok_inc) (tok_day +ℤ a.tok_inc))
  Settled-cases refused req tok_min tok_day r settled e =
      subst
        (λ q.
          (r.1 ≡ reply a q req tok_min tok_day)
          × (if q
              then Holds R r.0 k req tok_min tok_day
              else Holds R r.0 k (req +ℤ a.req_inc) (tok_min +ℤ a.tok_inc) (tok_day +ℤ a.tok_inc)))
        e (settled.replies, settled.counters)

module _ (R : Redis) (v : IsRedis R) (k : Keys) (d : AreDistinct k) (a : Arguments) where
  restore-Holds :
      (t : R.State) (req tok_min tok_day : ℤ)
      → IsI64 req
      → IsI64 tok_min
      → IsI64 tok_day
      → Holds R t k (req +ℤ a.req_inc) (tok_min +ℤ a.tok_inc) (tok_day +ℤ a.tok_inc)
      → Holds R
          (R.decr_by
            (R.decr_by (R.decr_by t k.req_key a.req_inc).0 k.tok_min_key a.tok_inc).0
            k.tok_day_key
            a.tok_inc).0
          k
          req
          tok_min
          tok_day
  restore-Holds t req tok_min tok_day b_req b_min b_day h =
      let t1 = (R.decr_by t k.req_key a.req_inc).0 in
      let t2 = (R.decr_by t1 k.tok_min_key a.tok_inc).0 in
      record {
        requests =
            v.decr_by-other t2 k.tok_day_key a.tok_inc k.req_key d.day_req
            ∙ v.decr_by-other t1 k.tok_min_key a.tok_inc k.req_key d.min_req
            ∙ decr_by-restores R v t k.req_key a.req_inc h.requests b_req;
        minute =
            v.decr_by-other t2 k.tok_day_key a.tok_inc k.tok_min_key d.day_min
            ∙ decr_by-restores R v t1 k.tok_min_key a.tok_inc
                (v.decr_by-other t k.req_key a.req_inc k.tok_min_key d.req_min ∙ h.minute) b_min;
        day =
            decr_by-restores R v t2 k.tok_day_key a.tok_inc
              (v.decr_by-other t1 k.tok_min_key a.tok_inc k.tok_day_key d.min_day
                ∙ v.decr_by-other t k.req_key a.req_inc k.tok_day_key d.req_day
                ∙ h.day)
              b_day;
      }

  limiter_script-settles :
      (s : R.State)
      → to_numbers R a ≡ a
      → let (s1, req) = charge_counter R s k.req_key a.req_inc a.req_ttl in
        let (s2, tok_min) = charge_counter R s1 k.tok_min_key a.tok_inc a.tok_min_ttl in
        let (s3, tok_day) = charge_counter R s2 k.tok_day_key a.tok_inc a.tok_day_ttl in
        limiter_script R s k a ≡ settle_script R k a s3 req tok_min tok_day
  unfolding limiter_script charge_counters
  limiter_script-settles s exact = ap (charge_counters R s k) exact

  settle_script-Settled :
      (t : R.State) (req tok_min tok_day : ℤ)
      → InRange a req tok_min tok_day
      → Holds R t k (req +ℤ a.req_inc) (tok_min +ℤ a.tok_inc) (tok_day +ℤ a.tok_inc)
      → Settled R k a req tok_min tok_day
          (settle_script R k a t (req +ℤ a.req_inc) (tok_min +ℤ a.tok_inc) (tok_day +ℤ a.tok_inc))
  unfolding settle_script
  settle_script-Settled t req tok_min tok_day i charged =
      elim (Bool-cases (exceeds a req tok_min tok_day)) [
        | inl over ↦ record {
          replies = rw over refl;
          counters =
              rw over (
                restore-Holds t req tok_min tok_day i.req_before i.min_before i.day_before charged);
        }
        | inr under ↦ record { replies = rw under refl; counters = rw under charged }
      ]

  module _ (req_ttl : 0 < a.req_ttl) (min_ttl : 0 < a.tok_min_ttl)
      (day_ttl : 0 < a.tok_day_ttl) where
    charges-Holds :
        (s : R.State) (req tok_min tok_day : ℤ)
        → InRange a req tok_min tok_day
        → Holds R s k req tok_min tok_day
        → let s1 = charge_counter R s k.req_key a.req_inc a.req_ttl in
          let s2 = charge_counter R s1.0 k.tok_min_key a.tok_inc a.tok_min_ttl in
          let s3 = charge_counter R s2.0 k.tok_day_key a.tok_inc a.tok_day_ttl in
          Holds R s3.0 k (req +ℤ a.req_inc) (tok_min +ℤ a.tok_inc) (tok_day +ℤ a.tok_inc)
          × (s1.1 ≡ req +ℤ a.req_inc)
          × (s2.1 ≡ tok_min +ℤ a.tok_inc)
          × (s3.1 ≡ tok_day +ℤ a.tok_inc)
    charges-Holds s req tok_min tok_day i h =
        let s1 = (charge_counter R s k.req_key a.req_inc a.req_ttl).0 in
        let s2 = (charge_counter R s1 k.tok_min_key a.tok_inc a.tok_min_ttl).0 in
        let (req_count, req_result) =
          charge_counter_self R v s k.req_key a.req_inc a.req_ttl req_ttl h.requests i.req_after in
        let (min_count, min_result) =
          charge_counter_self R v s1 k.tok_min_key a.tok_inc a.tok_min_ttl min_ttl
            (charge_counter_other R v s k.req_key a.req_inc a.req_ttl k.tok_min_key req_ttl
                d.req_min
              ∙ h.minute)
            i.min_after in
        let (day_count, day_result) =
          charge_counter_self R v s2 k.tok_day_key a.tok_inc a.tok_day_ttl day_ttl
            (charge_counter_other R v s1 k.tok_min_key a.tok_inc a.tok_min_ttl k.tok_day_key min_ttl
                d.min_day
              ∙ charge_counter_other R v s k.req_key a.req_inc a.req_ttl k.tok_day_key req_ttl
                  d.req_day
              ∙ h.day)
            i.day_after in
        (
          record {
            requests =
                charge_counter_other R v s2 k.tok_day_key a.tok_inc a.tok_day_ttl k.req_key day_ttl
                  d.day_req
                ∙ charge_counter_other R v s1 k.tok_min_key a.tok_inc a.tok_min_ttl k.req_key
                    min_ttl d.min_req
                ∙ req_count;
            minute =
                charge_counter_other R v s2 k.tok_day_key a.tok_inc a.tok_day_ttl k.tok_min_key
                  day_ttl d.day_min
                ∙ min_count;
            day = day_count;
          },
          req_result,
          min_result,
          day_result,
        )

    -- The script charges the three counters together when no limit is passed, and none otherwise, if
    -- its arguments are exact as doubles.
    pub limiter_script-Settled :
        (s : R.State) (req tok_min tok_day : ℤ)
        → InRange a req tok_min tok_day
        → Holds R s k req tok_min tok_day
        → to_numbers R a ≡ a
        → Settled R k a req tok_min tok_day (limiter_script R s k a)
    limiter_script-Settled s req tok_min tok_day i h exact =
        let (charged, e1, e2, e3) = charges-Holds s req tok_min tok_day i h in
        rw (limiter_script-settles s exact, e1, e2, e3)
          (settle_script-Settled _ req tok_min tok_day i charged)
