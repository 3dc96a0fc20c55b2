-- ===== src/Cache/Freshness.antt =====
-- What the cache of src/cache.rs answers, after any calls.
mod Tests
use rust_llm_inference_gatew.Prelude.{
  ℕ, ◌+◌, ◌≤◌, ◌≡◌, refl, sym, ap, ◌∙◌, Bool, true, false, Option, none, some, List, [], ◌∷◌, arith,
  leb, if◌then◌else◌, All,
}
use rust_llm_inference_gatew.Text.{Text, text_eq, text_eq_iff}
use rust_llm_inference_gatew.HashMap.{
  HashMap, empty, get, insert, remove, get-insert, get-remove, get-empty,
}
use rust_llm_inference_gatew.Models.{BackendChatResponse}
use rust_llm_inference_gatew.Cache.{
  CacheConfig, MemoryCacheItem, ResponseCache, new_cache, found, cache_get, cache_set,
}

-- A call, with its time.
pub data Call : Type 0 where
  gets : (at : ℕ) (key : Text) → Call
  sets : (at : ℕ) (key : Text) → BackendChatResponse → Call

pub step : ResponseCache → Call → ResponseCache
step c (gets at key) = (cache_get at c key).0
step c (sets at key value) = cache_set at c key value

pub run : ResponseCache → List Call → ResponseCache
run c [] = c
run c (call ∷ calls) = run (step c call) calls

pub call_time : Call → ℕ
call_time (gets at key) = at
call_time (sets at key value) = at

-- The specification, without a store: what a key answers at `now` after some calls, if it answers
-- `before` without them. Only the calls that set this key matter, and of these the last one.
pub answer_after :
    ℕ → ℕ → Text → Option BackendChatResponse → List Call → Option BackendChatResponse
answer_after now ttl key before [] = before
answer_after now ttl key before (gets at k ∷ calls) = answer_after now ttl key before calls
answer_after now ttl key before (sets at k value ∷ calls) =
    answer_after now ttl key
      (if text_eq k key then (if leb (at + ttl) now then none else some value) else before) calls

valid : ℕ → Option MemoryCacheItem → Option BackendChatResponse
valid now none = none
valid now (some item) = if leb item.expires_at now then none else some item.value

cache_get-valid :
    (now : ℕ) (c : ResponseCache) (key : Text)
    → (cache_get now c key).1 ≡ valid now (get c.memory key)
unfolding cache_get found valid
cache_get-valid now c key = ground arith

step-ttl : (c : ResponseCache) (call : Call) → (step c call).config ≡ c.config
unfolding step cache_get found cache_set
step-ttl c (gets at key) = ground arith
step-ttl c (sets at key value) = refl

-- An item that a call found expired is expired later too.
valid-gets :
    (now at : ℕ) (c : ResponseCache) (k key : Text)
    → at ≤ now
    → valid now (get (cache_get at c k).0.memory key) ≡ valid now (get c.memory key)
unfolding cache_get found valid
valid-gets now at c k key h = ground (arith, get-remove c.memory k key, text_eq_iff k key)

valid-sets :
    (now at : ℕ) (c : ResponseCache) (k key : Text) (value : BackendChatResponse)
    → valid now (get (cache_set at c k value).memory key) ≡ (
        if text_eq k key
        then (if leb (at + c.config.ttl) now then none else some value)
        else valid now (get c.memory key))
unfolding cache_set valid
valid-sets now at c k key value =
    ground
      (arith, get-insert c.memory k key (record { value = value; expires_at = at + c.config.ttl }))

run-valid :
    (now : ℕ) (key : Text) (c : ResponseCache) (calls : List Call)
    → All (λ call. call_time call ≤ now) calls
    → valid now (get (run c calls).memory key)
      ≡ answer_after now c.config.ttl key (valid now (get c.memory key)) calls
unfolding run answer_after step call_time cache_set
run-valid now key c [] v = refl
run-valid now key c (gets at k ∷ calls) (h, v) =
    run-valid now key (step c (gets at k)) calls v
    ∙ ap
        (λ (config : CacheConfig).
          answer_after now config.ttl key (valid now (get (step c (gets at k)).memory key)) calls)
        (step-ttl c (gets at k))
    ∙ ap (λ before. answer_after now c.config.ttl key before calls) (valid-gets now at c k key h)
run-valid now key c (sets at k value ∷ calls) (h, v) =
    run-valid now key (step c (sets at k value)) calls v
    ∙ ap (λ before. answer_after now c.config.ttl key before calls)
        (valid-sets now at c k key value)

-- After any calls that are not in the future, a lookup answers what the last call that set its key
-- stored, if the time to live since that call is not over, and nothing otherwise: not what was stored
-- for another key, and whatever lookups came before.
pub cache_get-answers :
    (config : CacheConfig) (now : ℕ) (key : Text) (calls : List Call)
    → All (λ call. call_time call ≤ now) calls
    → (cache_get now (run (new_cache config) calls) key).1
      ≡ answer_after now config.ttl key none calls
unfolding run valid get
cache_get-answers config now key calls v =
    cache_get-valid now (run (new_cache config) calls) key
    ∙ run-valid now key (new_cache config) calls v
