-- ===== src/Cache.antt =====
-- src/cache.rs: the in-memory cache of one-shot responses. Instants and durations are nanoseconds,
-- and the clock is an argument.
mod Freshness
pub mod Interface
pub mod Redis
pub mod Config
use rust_llm_inference_gatew.Prelude.{ℕ, ◌+◌, Option, none, some, leb, if◌then◌else◌}
use rust_llm_inference_gatew.Text.{Text}
use rust_llm_inference_gatew.HashMap.{HashMap, empty, get, insert, remove}
use rust_llm_inference_gatew.Models.{BackendChatResponse}

pub record CacheConfig : Type 0 where
  pub ttl : ℕ

pub record MemoryCacheItem : Type 0 where
  pub value : BackendChatResponse
  pub expires_at : ℕ

-- `ResponseCache` over `CacheBackend::Memory`
pub record ResponseCache : Type 0 where
  pub memory : HashMap MemoryCacheItem
  pub config : CacheConfig

-- `ResponseCache::memory`
abbrev pub new_cache : CacheConfig → ResponseCache
new_cache config = record { memory = empty; config = config }

pub found :
    ℕ → ResponseCache → Text → Option MemoryCacheItem → ResponseCache × Option BackendChatResponse
found now c key none = (c, none)
found now c key (some item) =
    if leb item.expires_at now
    then (record c { memory = remove c.memory key }, none)
    else (c, some item.value)

-- `ResponseCache::get`
unfoldable pub cache_get : ℕ → ResponseCache → Text → ResponseCache × Option BackendChatResponse
unfolding found
cache_get now c key = found now c key (get c.memory key)

-- `ResponseCache::set`
unfoldable pub cache_set : ℕ → ResponseCache → Text → BackendChatResponse → ResponseCache
cache_set now c key value = record c {
  memory = insert c.memory key (record { value = value; expires_at = now + c.config.ttl });
}
