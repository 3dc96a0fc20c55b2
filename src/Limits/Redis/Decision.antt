-- ===== src/Limits/Redis/Decision.antt =====
-- The decision of the script of src/limits.rs on counters that mirror an entry of the memory backend.
use rust_llm_inference_gatew.Prelude.{
  ℕ, ◌+◌, ◌^◌, ◌<◌, ◌≤◌, ◌≡◌, refl, subst, ap, ◌∙◌, sym, Bool, true, false, ◌||◌, List, [], ◌∷◌,
  arith, Result, ok, err, Bool-cases, inl, inr, ltb, u32_max,
}
use rust_llm_inference_gatew.Prelude.Int.{ℤ, pos, ◌+ℤ◌, +ℤ-pos, as_i64-pos}
use rust_llm_inference_gatew.Text.{Text}
use rust_llm_inference_gatew.Limits.Snapshot.{
  RatePolicy, KeyUsage, RateLimitSnapshot, RateLimitError, error_message, snapshot,
}
use rust_llm_inference_gatew.Limits.{consume}
use rust_llm_inference_gatew.Limits.Quota.{charge}
use rust_llm_inference_gatew.Limits.Redis.{Redis, Keys, arguments, decode, refusal, to_numbers}
use rust_llm_inference_gatew.Limits.Redis.Counters.{IsI64, IsExact, IsRedis}
use rust_llm_inference_gatew.Limits.Redis.Script.{Holds, Settled, InRange, exceeds, Settled-cases}

-- The counters of Redis for the windows of `now` are those of `usage`.
abbrev pub Mirrors : (R : Redis) → R.State → Keys → KeyUsage → Type 0
Mirrors R s k usage =
    Holds R s k (pos usage.requests_in_minute) (pos usage.tokens_in_minute)
      (pos usage.tokens_in_day)

-- What a client is told: the snapshot of an admitted request, the message of a refused one.
abbrev pub decision : Result RateLimitSnapshot RateLimitError → Result RateLimitSnapshot Text
decision (ok snapshot) = ok snapshot
decision (err e) = err (error_message e)

-- Limits and counters that a double represents exactly and that the saturation of the memory backend
-- does not cut off.
pub record AreSmall (p : RatePolicy) (tokens : ℕ) (u : KeyUsage) : Type 0 where
  pub requests_limit : p.requests_per_minute < u32_max
  pub minute_limit : p.tokens_per_minute ≤ 2 ^ 53
  pub day_limit : p.tokens_per_day ≤ 2 ^ 53
  pub requests_count : u.requests_in_minute < u32_max
  pub minute_count : u.tokens_in_minute + tokens ≤ 2 ^ 53
  pub day_count : u.tokens_in_day + tokens ≤ 2 ^ 53

-- The tests of the script on counters and limits that are no larger than that.
over : RatePolicy → ℕ → KeyUsage → Bool
over p tokens u =
    ltb p.requests_per_minute (u.requests_in_minute + 1)
    || ltb p.tokens_per_minute (u.tokens_in_minute + tokens)
    || ltb p.tokens_per_day (u.tokens_in_day + tokens)

pos-IsExact : (n : ℕ) → n ≤ 2 ^ 53 → IsExact (pos n)
pos-IsExact n h = record { above = h; below = omega arith }

pub pos-IsI64 : (n : ℕ) → n < 2 ^ 63 → IsI64 (pos n)
pos-IsI64 n h = record { above = h; below = omega arith }

module _ (p : RatePolicy) (tokens now : ℕ) (u : KeyUsage) (b : AreSmall p tokens u) where
  consume-over : over p tokens u ≡ true → (consume p tokens now u).0 ≡ u
  unfolding consume over
  consume-over e = ground arith

  decode-over :
      (n m d : ℤ)
      → over p tokens u ≡ true
      → n ≡ pos (u.requests_in_minute + 1)
      → m ≡ pos (u.tokens_in_minute + tokens)
      → d ≡ pos (u.tokens_in_day + tokens)
      → decision (decode p now (pos 0 ∷ n ∷ m ∷ d ∷ [])) ≡ decision (consume p tokens now u).1
  unfolding decode refusal consume over error_message
  decode-over n m d e en em ed = rw (en, em, ed) (ground arith)

  consume-under :
      over p tokens u ≡ false
      → consume p tokens now u ≡ (charge tokens u, ok (snapshot p (charge tokens u) now))
  unfolding consume over
  consume-under e = ground arith

  decode-under :
      (n m d : ℤ)
      → n ≡ pos (u.requests_in_minute + 1)
      → m ≡ pos (u.tokens_in_minute + tokens)
      → d ≡ pos (u.tokens_in_day + tokens)
      → decode p now (pos 1 ∷ n ∷ m ∷ d ∷ []) ≡ ok (snapshot p (charge tokens u) now)
  unfolding decode snapshot
  decode-under n m d en em ed = rw (en, em, ed) refl

  -- The arguments are the numbers themselves.
  arguments-AreExact :
      let a = arguments p tokens now in
      (a.req_inc ≡ pos 1)
      × (a.tok_inc ≡ pos tokens)
      × (a.req_limit ≡ pos p.requests_per_minute)
      × (a.tok_min_limit ≡ pos p.tokens_per_minute)
      × (a.tok_day_limit ≡ pos p.tokens_per_day)
  unfolding arguments
  arguments-AreExact = (
    refl,
    as_i64-pos tokens (omega (arith, b.minute_count)),
    refl,
    as_i64-pos p.tokens_per_minute (omega (arith, b.minute_limit)),
    as_i64-pos p.tokens_per_day (omega (arith, b.day_limit)),
  )

  -- The counters that the script replies.
  increments :
      let a = arguments p tokens now in
      (pos u.requests_in_minute +ℤ a.req_inc ≡ pos (u.requests_in_minute + 1))
      × (pos u.tokens_in_minute +ℤ a.tok_inc ≡ pos (u.tokens_in_minute + tokens))
      × (pos u.tokens_in_day +ℤ a.tok_inc ≡ pos (u.tokens_in_day + tokens))
  increments =
      let (ri, ti, rl, ml, dl) = arguments-AreExact in
      (
        ap (λ i. pos u.requests_in_minute +ℤ i) ri ∙ +ℤ-pos u.requests_in_minute 1,
        ap (λ i. pos u.tokens_in_minute +ℤ i) ti ∙ +ℤ-pos u.tokens_in_minute tokens,
        ap (λ i. pos u.tokens_in_day +ℤ i) ti ∙ +ℤ-pos u.tokens_in_day tokens,
      )

  exceeds-over :
      exceeds
        (arguments p tokens now)
        (pos u.requests_in_minute)
        (pos u.tokens_in_minute)
        (pos u.tokens_in_day)
      ≡ over p tokens u
  unfolding over
  exceeds-over =
      let (ri, ti, rl, ml, dl) = arguments-AreExact in
      let (en, em, ed) = increments in rw (en, em, ed, rl, ml, dl) (ground arith)

  -- Lua reads them as they are.
  pub to_numbers-arguments :
      (R : Redis) → IsRedis R → to_numbers R (arguments p tokens now) ≡ arguments p tokens now
  unfolding to_numbers
  to_numbers-arguments R v =
      let (ri, ti, rl, ml, dl) = arguments-AreExact in
      let same : (n : ℕ) (i : ℤ) → i ≡ pos n → n ≤ 2 ^ 53 → R.number i ≡ i =
        λ n i e h. v.number-exact i (subst IsExact (sym e) (pos-IsExact n h)) in
      rw
        (
          same 1 _ ri (omega arith),
          same tokens _ ti (omega (arith, b.minute_count)),
          same p.requests_per_minute _ rl (omega (arith, b.requests_limit)),
          same p.tokens_per_minute _ ml b.minute_limit,
          same p.tokens_per_day _ dl b.day_limit,
        )
        refl

  pub arguments-InRange :
      InRange
        (arguments p tokens now)
        (pos u.requests_in_minute)
        (pos u.tokens_in_minute)
        (pos u.tokens_in_day)
  arguments-InRange =
      let (en, em, ed) = increments in
      record {
        req_before = pos-IsI64 u.requests_in_minute (omega (arith, b.requests_count));
        min_before = pos-IsI64 u.tokens_in_minute (omega (arith, b.minute_count));
        day_before = pos-IsI64 u.tokens_in_day (omega (arith, b.day_count));
        req_after =
            rw en (pos-IsExact (u.requests_in_minute + 1) (omega (arith, b.requests_count)));
        min_after = rw em (pos-IsExact (u.tokens_in_minute + tokens) b.minute_count);
        day_after = rw ed (pos-IsExact (u.tokens_in_day + tokens) b.day_count);
      }

  -- A run of the script on such counters leaves and tells what `consume` does.
  pub Settled-agrees :
      (R : Redis) (k : Keys) (r : R.State × List ℤ)
      → Settled R k
          (arguments p tokens now)
          (pos u.requests_in_minute)
          (pos u.tokens_in_minute)
          (pos u.tokens_in_day)
          r
      → (decision (decode p now r.1) ≡ decision (consume p tokens now u).1)
        × Mirrors R r.0 k (consume p tokens now u).0
  Settled-agrees R k r settled =
      let (en, em, ed) = increments in
      elim (Bool-cases (over p tokens u)) [
        | inl e ↦
            let (replied, holds) =
              Settled-cases R k (arguments p tokens now) true _ _ _ r settled (exceeds-over ∙ e) in
            (
              ap (λ values. decision (decode p now values)) replied ∙ decode-over _ _ _ e en em ed,
              rw (consume-over e) holds,
            )
        | inr e ↦
            let (replied, holds) =
              Settled-cases R k (arguments p tokens now) false _ _ _ r settled (exceeds-over ∙ e) in
            (
              ap (λ values. decision (decode p now values)) replied
                  ∙ ap decision (decode-under _ _ _ en em ed)
                  ∙ ap (λ c. decision c.1) (sym (consume-under e)),
              rw (consume-under e) (record {
                requests = holds.requests ∙ en;
                minute = holds.minute ∙ em;
                day = holds.day ∙ ed;
              }),
            )
      ]
