-- ===== src/Limits/Redis/Counters.antt =====
-- What src/limits.rs relies on of Redis, and what the limiter's script does to its three counters.
use rust_llm_inference_gatew.Prelude.{
  ℕ, ◌^◌, ◌<◌, ◌≤◌, ◌≡◌, ◌≢◌, refl, sym, ap, ◌∙◌, false, ◌++◌, arith, Bool-cases, inl, inr, take,
}
use rust_llm_inference_gatew.Prelude.Int.{ℤ, pos_part, neg_part, ◌+ℤ◌, ◌-ℤ◌, eqb_ℤ, +ℤ_cancel}
use rust_llm_inference_gatew.Text.{text_eq_of_ne, ne_of_text_eq, append_cancel, Text, lit, text_eq}
use rust_llm_inference_gatew.Text.Decimal.{to_decimal}
use rust_llm_inference_gatew.Limits.Snapshot.{current_minute_start}
use rust_llm_inference_gatew.Limits.Redis.{
  Redis, Keys, minute_key, day_key, window_keys, minute_ttl, day_ttl, charge_counter,
}

-- `n` is an `i64`.
pub record IsI64 (n : ℤ) : Type 0 where
  pub above : pos_part n < 2 ^ 63
  pub below : neg_part n ≤ 2 ^ 63

-- A double represents `n` exactly.
pub record IsExact (n : ℤ) : Type 0 where
  pub above : pos_part n ≤ 2 ^ 53
  pub below : neg_part n ≤ 2 ^ 53

pub IsExact-IsI64 : (n : ℤ) → IsExact n → IsI64 n
IsExact-IsI64 n e = record { above = omega (arith, e.above); below = omega (arith, e.below) }

-- The documented behaviour of INCRBY, DECRBY and EXPIRE on a key, and of all three on other keys.
-- INCRBY and DECRBY fail where the count would leave `i64`. A Lua number is exact up to 2^53.
pub record IsRedis (R : Redis) : Type 0 where
  pub incr_by-self :
      (s : R.State) (key : Text) (d : ℤ)
      → IsI64 (R.count s key +ℤ d)
      → (R.count (R.incr_by s key d).0 key ≡ R.count s key +ℤ d)
        × ((R.incr_by s key d).1 ≡ R.count s key +ℤ d)
  pub incr_by-other :
      (s : R.State) (key : Text) (d : ℤ) (j : Text)
      → text_eq key j ≡ false
      → R.count (R.incr_by s key d).0 j ≡ R.count s j
  pub decr_by-self :
      (s : R.State) (key : Text) (d : ℤ)
      → IsI64 (R.count s key -ℤ d)
      → R.count (R.decr_by s key d).0 key ≡ R.count s key -ℤ d
  pub decr_by-other :
      (s : R.State) (key : Text) (d : ℤ) (j : Text)
      → text_eq key j ≡ false
      → R.count (R.decr_by s key d).0 j ≡ R.count s j
  pub count-expire :
      (s : R.State) (key : Text) (ttl : ℕ) (j : Text)
      → 0 < ttl
      → R.count (R.expire s key ttl) j ≡ R.count s j
  pub number-exact : (n : ℤ) → IsExact n → R.number n ≡ n

-- The keys are three.
pub record AreDistinct (k : Keys) : Type 0 where
  pub req_min : text_eq k.req_key k.tok_min_key ≡ false
  pub req_day : text_eq k.req_key k.tok_day_key ≡ false
  pub min_req : text_eq k.tok_min_key k.req_key ≡ false
  pub min_day : text_eq k.tok_min_key k.tok_day_key ≡ false
  pub day_req : text_eq k.tok_day_key k.req_key ≡ false
  pub day_min : text_eq k.tok_day_key k.tok_min_key ≡ false

suffixes-ne : lit ":req" ≢ lit ":tok"
unfolding text_eq lit
suffixes-ne = ne_of_text_eq (lit ":req") (lit ":tok") refl

windows-ne : (s t : Text) → lit ":m:" ++ s ≢ lit ":d:" ++ t
unfolding text_eq lit
windows-ne s t e = ne_of_text_eq (lit ":m:") (lit ":d:") refl (ap (take 3) e)

module _ (prefix api_key : Text) (now : ℕ) where
  minute_keys-ne :
      minute_key prefix api_key now (lit ":req") ≢ minute_key prefix api_key now (lit ":tok")
  unfolding minute_key
  minute_keys-ne e = suffixes-ne (
      append_cancel (to_decimal (current_minute_start now)) _ _ (
        append_cancel (lit ":m:") _ _ (
          append_cancel api_key _ _ (append_cancel (lit ":rl:") _ _ (append_cancel prefix _ _ e)))))

  minute_day-ne :
      (suffix : Text)
      → minute_key prefix api_key now suffix ≢ day_key prefix api_key now (lit ":tok")
  unfolding minute_key day_key
  minute_day-ne suffix e =
      windows-ne _ _
        (append_cancel api_key _ _ (append_cancel (lit ":rl:") _ _ (append_cancel prefix _ _ e)))

  pub window_keys-AreDistinct : AreDistinct (window_keys prefix api_key now)
  unfolding window_keys
  window_keys-AreDistinct = record {
    req_min = text_eq_of_ne _ _ minute_keys-ne;
    req_day = text_eq_of_ne _ _ (minute_day-ne (lit ":req"));
    min_req = text_eq_of_ne _ _ (λ e. minute_keys-ne (sym e));
    min_day = text_eq_of_ne _ _ (minute_day-ne (lit ":tok"));
    day_req = text_eq_of_ne _ _ (λ e. minute_day-ne (lit ":req") (sym e));
    day_min = text_eq_of_ne _ _ (λ e. minute_day-ne (lit ":tok") (sym e));
  }

pub minute_ttl-pos : (now : ℕ) → 0 < minute_ttl now
unfolding minute_ttl
minute_ttl-pos now = omega arith

pub day_ttl-pos : (now : ℕ) → 0 < day_ttl now
unfolding day_ttl
day_ttl-pos now = omega arith

module _ (R : Redis) (v : IsRedis R) where
  charge_counter-count :
      (s : R.State) (key : Text) (inc : ℤ) (ttl : ℕ) (j : Text)
      → 0 < ttl
      → R.count (charge_counter R s key inc ttl).0 j ≡ R.count (R.incr_by s key inc).0 j
  unfolding charge_counter
  charge_counter-count s key inc ttl j h =
      elim (Bool-cases (eqb_ℤ (R.number (R.incr_by s key inc).1) inc)) [
        | inl fresh ↦ rw fresh (v.count-expire (R.incr_by s key inc).0 key ttl j h)
        | inr old ↦ rw old refl
      ]

  pub charge_counter_self :
      (s : R.State) (key : Text) (inc : ℤ) (ttl : ℕ) {n : ℤ}
      → 0 < ttl
      → R.count s key ≡ n
      → IsExact (n +ℤ inc)
      → (R.count (charge_counter R s key inc ttl).0 key ≡ n +ℤ inc)
        × ((charge_counter R s key inc ttl).1 ≡ n +ℤ inc)
  unfolding charge_counter
  charge_counter_self s key inc ttl {n} h e bound =
      let (count, result) = v.incr_by-self s key inc (rw e (IsExact-IsI64 (n +ℤ inc) bound)) in
      (
        charge_counter-count s key inc ttl key h ∙ count ∙ ap (λ m. m +ℤ inc) e,
        ap R.number (result ∙ ap (λ m. m +ℤ inc) e) ∙ v.number-exact (n +ℤ inc) bound,
      )

  pub charge_counter_other :
      (s : R.State) (key : Text) (inc : ℤ) (ttl : ℕ) (j : Text)
      → 0 < ttl
      → text_eq key j ≡ false
      → R.count (charge_counter R s key inc ttl).0 j ≡ R.count s j
  charge_counter_other s key inc ttl j h other =
      charge_counter-count s key inc ttl j h ∙ v.incr_by-other s key inc j other

  pub decr_by-restores :
      (s : R.State) (key : Text) (inc : ℤ) {n : ℤ}
      → R.count s key ≡ n +ℤ inc
      → IsI64 n
      → R.count (R.decr_by s key inc).0 key ≡ n
  decr_by-restores s key inc {n} e bound =
      let back = ap (λ m. m -ℤ inc) e ∙ +ℤ_cancel n inc in
      v.decr_by-self s key inc (rw back bound) ∙ back
