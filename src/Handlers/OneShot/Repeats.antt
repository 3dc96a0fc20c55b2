-- ===== src/Handlers/OneShot/Repeats.antt =====
-- A request that comes again after its answer has been stored, in src/handlers.rs.
use rust_llm_inference_gatew.Prelude.{
  ℕ, ◌+◌, ◌<◌, ◌≤◌, ◌≡◌, false, Bool, Option, some, List, Result, ◌⊎◌,
}
use rust_llm_inference_gatew.Text.{Text, text_eq}
use rust_llm_inference_gatew.Backend.{BackendError}
use rust_llm_inference_gatew.Models.{Usage, BackendChatResponse}
use rust_llm_inference_gatew.Auth.{ApiKeyRegistry}
use rust_llm_inference_gatew.Limits.Interface.{RateLimiter}
use rust_llm_inference_gatew.Cache.Interface.{Cache, IsCache}
use rust_llm_inference_gatew.Coalescing.OneShot.{Reply}
use rust_llm_inference_gatew.Handlers.OneShot.{
  Now, AppState, Ingress, Accepted, settle, store_response, resume_leader, resume_follower,
  process_chat_completions,
}

module _ (L : RateLimiter) (C : Cache) {F : Type 0} (is_header : Text → Text → Bool) where
  -- What the handler looks up.
  abbrev looked_up : Now → AppState L C → Accepted F → Option BackendChatResponse
  looked_up now s a = (C.get now.instant s.cache a.fingerprint).1

  abbrev with_cache : Now → AppState L C → Accepted F → AppState L C
  with_cache now s a = record s { cache = (C.get now.instant s.cache a.fingerprint).0 }

  module _ (format4 : F → Text) (digest : Text → List ℕ) (registry : ApiKeyRegistry) where
    -- A step of any request that may come while the response to `key` is kept until `until`: a request
    -- begins before then, or one resumes, settles, or stores its response, under another key or the
    -- same response again.
    pub data Step (key : Text) (response : BackendChatResponse) (until : ℕ)
        : AppState L C → AppState L C → Type 0 where
      begins :
          {s : AppState L C} (now : Now) (i : Ingress F)
          → now.instant < until
          → Step key response until s
              (process_chat_completions L C is_header format4 digest registry now s i).0
      leads :
          {s : AppState L C} (fingerprint : Text) (result : Result BackendChatResponse BackendError)
          → Step key response until s (resume_leader L C s fingerprint result).0
      follows :
          {s : AppState L C} (reply : Option Reply)
          → Step key response until s (resume_follower L C s reply).0
      settles :
          {s : AppState L C} (now : Now) (a : Accepted F) (usage : Usage)
          → Step key response until s (settle L C is_header now s a usage)
      stores :
          {s : AppState L C} (now : Now) (a : Accepted F) (other : BackendChatResponse)
          → text_eq a.fingerprint key ≡ false
          → Step key response until s (store_response L C is_header now s a other).0
      stores_again :
          {s : AppState L C} (now : Now) (a : Accepted F)
          → a.fingerprint ≡ key
          → until ≤ now.instant + C.ttl s.cache
          → Step key response until s (store_response L C is_header now s a response).0

    pub data Later (key : Text) (response : BackendChatResponse) (until : ℕ) (s : AppState L C)
        : AppState L C → Type 0 where
      start : Later key response until s s
      later :
          {t u : AppState L C}
          → Later key response until s t
          → Step key response until t u
          → Later key response until s u

    -- A request that begins leaves the cache, or looks in it.
    Looks : ℕ → AppState L C → AppState L C → Type 0
    Looks now s t = (t.cache ≡ s.cache) ⊎ ((key : Text) × (t.cache ≡ (C.get now s.cache key).0))

    module _ (lawful : IsCache C) (key : Text) (response : BackendChatResponse) (until : ℕ) where
      -- Until `until` the cache finds the response.
      Finds : C.State → Type 0
      Finds cache = (now : ℕ) → now < until → (C.get now cache key).1 ≡ some response
