-- ===== src/Limits/Quota.antt =====
-- What one admission decision of src/limits.rs does, against a description by plain addition.
use rust_llm_inference_gatew.Prelude.{
  ℕ, ◌+◌, ◌≤◌, ◌<◌, ◌≡◌, refl, ap, ◌∙◌, inl, inr, Result, ok, err, some, arith, u32_max, u64_max,
  Bool-cases, ltb, ◌⊎◌, dec_lt,
}
use rust_llm_inference_gatew.Text.{Text}
use rust_llm_inference_gatew.HashMap.{HashMap, get, get-insert_self}
use rust_llm_inference_gatew.Limits.Snapshot.{
  RatePolicy, KeyUsage, RateLimitSnapshot, RateLimitError, requests_per_minute, tokens_per_minute,
  tokens_per_day, snapshot,
}
use rust_llm_inference_gatew.Limits.{
  refresh_windows, usage_or_new, consume, check_and_consume_memory,
}

-- A limit that a saturated counter cannot stay below.
pub record IsBounded (p : RatePolicy) : Type 0 where
  pub requests : p.requests_per_minute < u32_max
  pub minute : p.tokens_per_minute < u64_max
  pub day : p.tokens_per_day < u64_max

-- One more request of so many tokens stays within the three limits.
pub record Fits (p : RatePolicy) (tokens : ℕ) (u : KeyUsage) : Type 0 where
  pub requests : u.requests_in_minute + 1 ≤ p.requests_per_minute
  pub minute : u.tokens_in_minute + tokens ≤ p.tokens_per_minute
  pub day : u.tokens_in_day + tokens ≤ p.tokens_per_day

-- The entry after an admitted request.
abbrev pub charge : ℕ → KeyUsage → KeyUsage
charge tokens u = record u {
  requests_in_minute = u.requests_in_minute + 1;
  tokens_in_minute = u.tokens_in_minute + tokens;
  tokens_in_day = u.tokens_in_day + tokens;
}

-- The limit that an error names is exceeded, and those that the code tests before it are not.
abbrev pub Names : RatePolicy → ℕ → KeyUsage → RateLimitError → Type 0
Names p tokens u (requests_per_minute s) = p.requests_per_minute < u.requests_in_minute + 1
Names p tokens u (tokens_per_minute s) =
    (u.requests_in_minute + 1 ≤ p.requests_per_minute)
    × (p.tokens_per_minute < u.tokens_in_minute + tokens)
Names p tokens u (tokens_per_day s) =
    (u.requests_in_minute + 1 ≤ p.requests_per_minute)
    × (u.tokens_in_minute + tokens ≤ p.tokens_per_minute)
    × (p.tokens_per_day < u.tokens_in_day + tokens)

pub consume-Fits :
    (p : RatePolicy) (tokens now : ℕ) (u : KeyUsage)
    → IsBounded p
    → Fits p tokens u
    → consume p tokens now u ≡ (charge tokens u, ok (snapshot p (charge tokens u) now))
unfolding consume
consume-Fits p tokens now u b f = ground arith

-- What the decision returns when the request does not fit.
abbrev pub Refusal :
    RatePolicy → ℕ → KeyUsage → KeyUsage × Result RateLimitSnapshot RateLimitError → Type 0
Refusal p tokens u r = (e : RateLimitError) × (r.0 ≡ u) × (r.1 ≡ err e) × Names p tokens u e

pub consume-exceeds :
    (p : RatePolicy) (tokens now : ℕ) (u : KeyUsage)
    → IsBounded p
    → ¬ Fits p tokens u
    → Refusal p tokens u (consume p tokens now u)
unfolding consume
consume-exceeds p tokens now u b n =
    elim (Bool-cases (ltb p.requests_per_minute (u.requests_in_minute + 1))) [
      | inl x ↦ (requests_per_minute (snapshot p u now), ground arith, ground arith, ground arith)
      | inr x ↦ elim (Bool-cases (ltb p.tokens_per_minute (u.tokens_in_minute + tokens))) [
        | inl y ↦ (tokens_per_minute (snapshot p u now), ground arith, ground arith, ground arith)
        | inr y ↦ (
          tokens_per_day (snapshot p u now),
          ground (arith, λ (f : Fits p tokens u). n f),
          ground (arith, λ (f : Fits p tokens u). n f),
          ground (arith, λ (f : Fits p tokens u). n f),
        )
      ]
    ]

-- The entry that a call at `now` decides on: fresh for a new key, its windows brought up to date.
abbrev pub current_usage : HashMap KeyUsage → Text → ℕ → KeyUsage
current_usage m key now = refresh_windows now (usage_or_new now (get m key))

-- A request that fits the three limits is admitted; the entry of its key is charged one request
-- and its tokens, and the reply is the snapshot of the charged entry.
pub check_and_consume-admits :
    (m : HashMap KeyUsage) (key : Text) (p : RatePolicy) (tokens now : ℕ)
    → IsBounded p
    → Fits p tokens (current_usage m key now)
    → let r = check_and_consume_memory m key p tokens now in
      let u = charge tokens (current_usage m key now) in
      (r.1 ≡ ok (snapshot p u now)) × (get r.0 key ≡ some u)
unfolding check_and_consume_memory
check_and_consume-admits m key p tokens now b f =
    rw (consume-Fits p tokens now (current_usage m key now) b f)
      (refl, get-insert_self m key (charge tokens (current_usage m key now)))

-- A request that does not fit is refused; the error names the first limit, in the order of the
-- code, that it would exceed, and the entry of its key is brought up to date and charged nothing.
check_and_consume-refuses :
    (m : HashMap KeyUsage) (key : Text) (p : RatePolicy) (tokens now : ℕ)
    → IsBounded p
    → ¬ Fits p tokens (current_usage m key now)
    → let r = check_and_consume_memory m key p tokens now in
      let u = current_usage m key now in
      (e : RateLimitError) × (r.1 ≡ err e) × Names p tokens u e × (get r.0 key ≡ some u)
unfolding check_and_consume_memory
check_and_consume-refuses m key p tokens now b n =
    let (e, same, failed, named) = consume-exceeds p tokens now (current_usage m key now) b n in
    (e, failed, named, get-insert_self m key _ ∙ ap some same)

Fits-dec : (p : RatePolicy) (tokens : ℕ) (u : KeyUsage) → Fits p tokens u ⊎ (¬ Fits p tokens u)
Fits-dec p tokens u = elim (dec_lt p.requests_per_minute (u.requests_in_minute + 1)) [
  | yes x ↦ inr (λ f. absurd (omega (arith, f.requests)))
  | no x ↦ elim (dec_lt p.tokens_per_minute (u.tokens_in_minute + tokens)) [
    | yes y ↦ inr (λ f. absurd (omega (arith, f.minute)))
    | no y ↦ elim (dec_lt p.tokens_per_day (u.tokens_in_day + tokens)) [
      | yes z ↦ inr (λ f. absurd (omega (arith, f.day)))
      | no z ↦ inl (record { requests = omega arith; minute = omega arith; day = omega arith })
    ]
  ]
]

-- Under limits below the largest values of their types, a request that fits the three of them is
-- admitted: the entry of its key is charged one request and its tokens, and the reply is the snapshot
-- of the charged entry. Any other request is refused: the error names the first limit, in the order
-- of the code, that it would exceed, and the entry is brought up to date and charged nothing.
pub check_and_consume-decides :
    (m : HashMap KeyUsage) (key : Text) (p : RatePolicy) (tokens now : ℕ)
    → IsBounded p
    → let r = check_and_consume_memory m key p tokens now in
      let u = current_usage m key now in
      (Fits p tokens u
        × (r.1 ≡ ok (snapshot p (charge tokens u) now))
        × (get r.0 key ≡ some (charge tokens u)))
      ⊎ ((¬ Fits p tokens u)
          × ((e : RateLimitError) × (r.1 ≡ err e) × Names p tokens u e × (get r.0 key ≡ some u)))
check_and_consume-decides m key p tokens now b =
    elim (Fits-dec p tokens (current_usage m key now)) [
      | inl f ↦
          let (reply, charged) = check_and_consume-admits m key p tokens now b f in
          inl (f, reply, charged)
      | inr n ↦ inr (n, check_and_consume-refuses m key p tokens now b n)
    ]
