-- ===== src/Cache/Redis.antt =====
-- The Redis backend of src/cache.rs, over any Redis and any JSON codec of responses.
mod Tests
use rust_llm_inference_gatew.Prelude.{
  ℕ, ◌+◌, ◌*◌, ◌/◌, ◌^◌, ◌<◌, ◌≤◌, ◌≡◌, false, refl, ap, ◌∙◌, Bool, true, Option, none, some, ◌++◌,
  if◌then◌else◌,
}
use rust_llm_inference_gatew.Text.{Text, lit, text_eq, text_eq_of_ne, ne_of_text_eq, append_cancel}
use rust_llm_inference_gatew.Models.{BackendChatResponse}
use rust_llm_inference_gatew.Cache.{CacheConfig}
use rust_llm_inference_gatew.Cache.Interface.{Cache, IsCache}

-- The commands that the cache sends, with the clock in nanoseconds. A reply of `GET` is `none` if the
-- command fails. `SETEX` takes seconds, and what is left of a failed one is its state.
pub record RedisStore : Type 1 where
  pub State : Type 0
  pub connected : ℕ → State → Bool
  pub get : ℕ → State → Text → Option (Option Text)
  pub set_ex : ℕ → State → Text → Text → ℕ → State

-- serde_json at `BackendChatResponse`.
pub record Codec : Type 0 where
  pub to_string : BackendChatResponse → Option Text
  pub from_str : Text → Option BackendChatResponse

-- `Duration::as_secs`
pub as_secs : ℕ → ℕ
as_secs duration = duration / 10 ^ 9

pub redis_key : Text → Text → Text
redis_key prefix key = prefix ++ (lit ":cache:chat:" ++ key)

module _ (R : RedisStore) (J : Codec) (config : CacheConfig) (prefix : Text) where
  -- What a reply of `GET` means.
  pub decoded : Option (Option Text) → Option BackendChatResponse
  decoded none = none
  decoded (some none) = none
  decoded (some (some payload)) = J.from_str payload

  pub redis_get : ℕ → R.State → Text → Option BackendChatResponse
  unfolding decoded redis_key
  redis_get now s key =
      if R.connected now s then decoded (R.get now s (redis_key prefix key)) else none

  pub set_payload : ℕ → R.State → Text → Option Text → R.State
  unfolding redis_key as_secs
  set_payload now s key none = s
  set_payload now s key (some payload) =
      R.set_ex now s (redis_key prefix key) payload (as_secs config.ttl)

  pub redis_set : ℕ → R.State → Text → BackendChatResponse → R.State
  unfolding set_payload
  redis_set now s key value =
      if R.connected now s then set_payload now s key (J.to_string value) else s

  -- `ResponseCache` with its Redis backend.
  abbrev pub redis : Cache
  redis = record {
    State = R.State;
    get = λ now s key. (s, redis_get now s key);
    set = redis_set;
    ttl = λ s. as_secs config.ttl * 10 ^ 9;
  }

-- The documented behaviour of a Redis that can be reached, and of the codec.
pub record IsStore (R : RedisStore) : Type 0 where
  pub reachable : (now : ℕ) (s : R.State) → R.connected now s ≡ true
  pub get-set_ex :
      (at now : ℕ) (s : R.State) (key value : Text) (secs : ℕ)
      → 0 < secs
      → now < at + secs * 10 ^ 9
      → R.get now (R.set_ex at s key value secs) key ≡ some (some value)
  pub get-set_ex_late :
      (at now : ℕ) (s : R.State) (key value : Text) (secs : ℕ)
      → 0 < secs
      → at + secs * 10 ^ 9 ≤ now
      → R.get now (R.set_ex at s key value secs) key ≡ some none
  pub get-set_ex_other :
      (at now : ℕ) (s : R.State) (key j value : Text) (secs : ℕ)
      → text_eq key j ≡ false
      → R.get now (R.set_ex at s key value secs) j ≡ R.get now s j

pub record IsCodec (J : Codec) : Type 0 where
  pub from_str-to_string :
      (value : BackendChatResponse)
      → (payload : Text) × (J.to_string value ≡ some payload) × (J.from_str payload ≡ some value)

module _ (R : RedisStore) (J : Codec) (config : CacheConfig) (prefix : Text) where
  redis_get-redis_set :
      IsStore R
      → IsCodec J
      → 0 < as_secs config.ttl
      → (at now : ℕ) (s : R.State) (key : Text) (value : BackendChatResponse)
      → now < at + as_secs config.ttl * 10 ^ 9
      → redis_get R J config prefix now (redis_set R J config prefix at s key value) key
        ≡ some value
  unfolding redis_get redis_set set_payload decoded
  redis_get-redis_set store codec positive at now s key value early =
      let (payload, written, read) = codec.from_str-to_string value in
      let found =
        store.get-set_ex at now s (redis_key prefix key) payload (as_secs config.ttl) positive
          early in
      rw (store.reachable at s, written) (rw (store.reachable now) (rw found read))

  redis_get-redis_set_late :
      IsStore R
      → IsCodec J
      → 0 < as_secs config.ttl
      → (at now : ℕ) (s : R.State) (key : Text) (value : BackendChatResponse)
      → at + as_secs config.ttl * 10 ^ 9 ≤ now
      → redis_get R J config prefix now (redis_set R J config prefix at s key value) key ≡ none
  unfolding redis_get redis_set set_payload decoded
  redis_get-redis_set_late store codec positive at now s key value late =
      let (payload, written, read) = codec.from_str-to_string value in
      let gone =
        store.get-set_ex_late at now s (redis_key prefix key) payload (as_secs config.ttl) positive
          late in
      rw (store.reachable at s, written) (rw (store.reachable now) (rw gone refl))

  redis_key_ne :
      (key j : Text)
      → text_eq key j ≡ false
      → text_eq (redis_key prefix key) (redis_key prefix j) ≡ false
  unfolding redis_key
  redis_key_ne key j other = text_eq_of_ne _ _ (λ e.
      ne_of_text_eq key j other
        (append_cancel (lit ":cache:chat:") key j (append_cancel prefix _ _ e)))

  redis_get-redis_set_other :
      IsStore R
      → IsCodec J
      → (at now : ℕ) (s : R.State) (key j : Text) (value : BackendChatResponse)
      → text_eq key j ≡ false
      → redis_get R J config prefix now (redis_set R J config prefix at s key value) j
        ≡ redis_get R J config prefix now s j
  unfolding redis_get redis_set set_payload
  redis_get-redis_set_other store codec at now s key j value other =
      let (payload, written, read) = codec.from_str-to_string value in
      let same =
        store.get-set_ex_other at now s (redis_key prefix key) (redis_key prefix j) payload
          (as_secs config.ttl) (redis_key_ne key j other) in
      rw (store.reachable at s, written)
        (rw
          (
            store.reachable now (set_payload R J config prefix at s key (some payload)),
            store.reachable now s,
          )
          (rw same refl))

  -- Over a Redis that can be reached, and with a time to live of a second at least, the Redis backend
  -- keeps what the handlers rely on: a response that is set is found until its time to live, in whole
  -- seconds, is over, and not after that, and the other keys are left alone.
  pub redis-IsCache :
      IsStore R → IsCodec J → 0 < as_secs config.ttl → IsCache (redis R J config prefix)
  redis-IsCache store codec positive = record {
    get-set = redis_get-redis_set store codec positive;
    get-set_late = redis_get-redis_set_late store codec positive;
    get-set_other = redis_get-redis_set_other store codec;
    get-get = λ at now s key j value before later. later;
  }
