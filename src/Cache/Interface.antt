-- ===== src/Cache/Interface.antt =====
-- `ResponseCache` of src/cache.rs, as the handlers use it, with the law by which they rely on it.
use rust_llm_inference_gatew.Prelude.{
  Option-cases, ℕ, ◌+◌, ◌<◌, ◌≤◌, ◌≡◌, refl, sym, ap, ◌∙◌, false, Option, none, some, arith, leb,
  Bool-cases, inl, inr,
}
use rust_llm_inference_gatew.Text.{Text, text_eq, text_eq_iff}
use rust_llm_inference_gatew.HashMap.{get, remove, get-remove, get-insert, get-insert_self}
use rust_llm_inference_gatew.Models.{BackendChatResponse}
use rust_llm_inference_gatew.Cache.{ResponseCache, MemoryCacheItem, cache_get, cache_set, found}

-- The first argument of an operation is the clock, in nanoseconds.
pub record Cache : Type 1 where
  pub State : Type 0
  pub get : ℕ → State → Text → State × Option BackendChatResponse
  pub set : ℕ → State → Text → BackendChatResponse → State
  pub ttl : State → ℕ

-- What is set under a key is found until its time to live is over, and not after that; other keys are
-- left alone. A lookup, of whichever key, leaves what is found at its time and later.
pub record IsCache (C : Cache) : Type 0 where
  pub get-set :
      (at now : ℕ) (s : C.State) (key : Text) (value : BackendChatResponse)
      → now < at + C.ttl s
      → (C.get now (C.set at s key value) key).1 ≡ some value
  pub get-set_late :
      (at now : ℕ) (s : C.State) (key : Text) (value : BackendChatResponse)
      → at + C.ttl s ≤ now
      → (C.get now (C.set at s key value) key).1 ≡ none
  pub get-set_other :
      (at now : ℕ) (s : C.State) (key j : Text) (value : BackendChatResponse)
      → text_eq key j ≡ false
      → (C.get now (C.set at s key value) j).1 ≡ (C.get now s j).1
  pub get-get :
      (at now : ℕ) (s : C.State) (key j : Text) (value : BackendChatResponse)
      → (C.get at s key).1 ≡ some value
      → (C.get now s key).1 ≡ some value
      → (C.get now (C.get at s j).0 key).1 ≡ some value

-- `ResponseCache::memory`
abbrev pub memory : Cache
memory = record { State = ResponseCache; get = cache_get; set = cache_set; ttl = λ c. c.config.ttl }

cache_get-set :
    (at now : ℕ) (c : ResponseCache) (key : Text) (value : BackendChatResponse)
    → now < at + c.config.ttl
    → (cache_get now (cache_set at c key value) key).1 ≡ some value
unfolding cache_get cache_set found
cache_get-set at now c key value h =
    ground (
      arith,
      get-insert_self c.memory key (record { value = value; expires_at = at + c.config.ttl }),
    )

cache_get-set_late :
    (at now : ℕ) (c : ResponseCache) (key : Text) (value : BackendChatResponse)
    → at + c.config.ttl ≤ now
    → (cache_get now (cache_set at c key value) key).1 ≡ none
unfolding cache_get cache_set found
cache_get-set_late at now c key value h =
    ground (
      arith,
      get-insert_self c.memory key (record { value = value; expires_at = at + c.config.ttl }),
    )

-- What a lookup finds depends on the item alone.
found_item :
    (now : ℕ) (c d : ResponseCache) (key : Text) (item : Option MemoryCacheItem)
    → (found now c key item).1 ≡ (found now d key item).1
unfolding found
found_item now c d key none = refl
found_item now c d key (some item) = elim (Bool-cases (leb item.expires_at now)) [
  | inl late ↦ rw late refl
  | inr early ↦ rw early refl
]

cache_get-set_other :
    (at now : ℕ) (c : ResponseCache) (key j : Text) (value : BackendChatResponse)
    → text_eq key j ≡ false
    → (cache_get now (cache_set at c key value) j).1 ≡ (cache_get now c j).1
unfolding cache_get cache_set
cache_get-set_other at now c key j value other =
    found_item now (cache_set at c key value) c j (get (cache_set at c key value).memory j)
    ∙ ap (λ item. (found now c j item).1)
        (get-insert c.memory key j (record { value = value; expires_at = at + c.config.ttl })
          ∙ rw other refl)

cache_get-get :
    (at now : ℕ) (c : ResponseCache) (key j : Text) (value : BackendChatResponse)
    → (cache_get at c key).1 ≡ some value
    → (cache_get now c key).1 ≡ some value
    → (cache_get now (cache_get at c j).0 key).1 ≡ some value
unfolding cache_get found
cache_get-get at now c key j value then_ later = elim (Option-cases (get c.memory j)) [
  | inl absent ↦ rw absent later
  | inr (item, held) ↦ elim (Bool-cases (leb item.expires_at at)) [
    | inr early ↦ rw (held, early) later
    | inl late ↦ elim (Bool-cases (text_eq j key)) [
      | inl same ↦
          let here : get c.memory key ≡ some item =
            ap (get c.memory) (sym ((text_eq_iff j key).0 same)) ∙ held in
          absurd (ground (arith, here))
      | inr other ↦
          rw (held, late)
            (found_item now (record c { memory = remove c.memory j }) c key
                (get (remove c.memory j) key)
              ∙ ap (λ item. (found now c key item).1) (get-remove c.memory j key ∙ rw other refl)
              ∙ later)
    ]
  ]
]

pub memory-IsCache : IsCache memory
memory-IsCache = record {
  get-set = cache_get-set;
  get-set_late = cache_get-set_late;
  get-set_other = cache_get-set_other;
  get-get = cache_get-get;
}
