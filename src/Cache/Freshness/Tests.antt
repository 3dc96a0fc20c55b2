-- ===== src/Cache/Freshness/Tests.antt =====
-- Lookups in the cache of src/cache.rs.
use rust_llm_inference_gatew.Prelude.{ℕ, ◌≡◌, refl, none, some, List, [], ◌∷◌, arith}
use rust_llm_inference_gatew.Text.{text_eq}
use rust_llm_inference_gatew.Models.{BackendChatResponse}
use rust_llm_inference_gatew.Cache.{CacheConfig, new_cache, cache_get}
use rust_llm_inference_gatew.Cache.Freshness.{
  Call, gets, sets, run, call_time, answer_after, cache_get-answers,
}

abbrev config : CacheConfig
config = record { ttl = 90 }

abbrev reply : ℕ → BackendChatResponse
reply n = record {
  content = n ∷ [];
  finish_reason = [];
  usage = record { prompt_tokens = 1; completion_tokens = 1; total_tokens = 2 };
}

abbrev calls : List Call
calls = sets 0 (97 ∷ []) (reply 1) ∷ gets 95 (97 ∷ []) ∷ sets 100 (97 ∷ []) (reply 2) ∷ []

last_one : answer_after 150 90 (97 ∷ []) none calls ≡ some (reply 2)
unfolding answer_after text_eq
last_one = refl

cache_get-answers_example :
    (cache_get 150 (run (new_cache config) calls) (97 ∷ [])).1
    ≡ answer_after 150 90 (97 ∷ []) none calls
unfolding call_time
cache_get-answers_example =
    cache_get-answers config 150 (97 ∷ []) calls (omega arith, (omega arith, (omega arith, tt)))
