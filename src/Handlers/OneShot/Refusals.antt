-- ===== src/Handlers/OneShot/Refusals.antt =====
-- The requests that src/handlers.rs refuses before it looks for an answer.
use rust_llm_inference_gatew.Prelude.{
  ℕ, ◌≡◌, refl, Bool, Option, none, some, List, Result, ok, err, Bool-cases, inl, inr,
}
use rust_llm_inference_gatew.Text.{Text}
use rust_llm_inference_gatew.Models.{BackendChatResponse, NormalizedChatRequest}
use rust_llm_inference_gatew.Errors.{AppError}
use rust_llm_inference_gatew.Auth.{AuthContext, ApiKeyRegistry, authenticate}
use rust_llm_inference_gatew.Limits.Snapshot.{RateLimitSnapshot, RateLimitError}
use rust_llm_inference_gatew.Limits.Interface.{RateLimiter}
use rust_llm_inference_gatew.Cache.Interface.{Cache}
use rust_llm_inference_gatew.Coalescing.OneShot.{CoalesceOutcome, leader, joined, enter}
use rust_llm_inference_gatew.Handlers.OneShot.{
  Now, AppState, Ingress, Accepted, Progress, replies, calls_backend, waits_for_leader, streams,
  after_lookup, one_shot_completion, after_limiter, after_normalization, after_authentication,
  process_chat_completions,
}

module _ (L : RateLimiter) (C : Cache) where
  -- The parts of the state that serve answers are as they were.
  pub record Untouched (s t : AppState L C) : Type 0 where
    pub cache : t.cache ≡ s.cache
    pub coalescer : t.coalescer ≡ s.coalescer
    pub observed : t.observed ≡ s.observed

  same : (s : AppState L C) → Untouched s s
  same s = record { cache = refl; coalescer = refl; observed = refl }

  module _ {F : Type 0} (is_header : Text → Text → Bool) where
    -- What a handler may do if it refuses.
    abbrev Leaves : AppState L C → AppState L C × Progress F → Type 0
    Leaves s (t, replies (ok response)) = Unit
    Leaves s (t, replies (err e)) = Untouched s t
    Leaves s (t, calls_backend a) = Unit
    Leaves s (t, waits_for_leader a) = Unit
    Leaves s (t, streams a) = Unit

    Leaves-refused :
        (s : AppState L C) (r : AppState L C × Progress F) (e : AppError)
        → Leaves s r
        → r.1 ≡ replies (err e)
        → Untouched s r.0
    Leaves-refused s (t, replies (ok response)) e v h = absurd (cc)
    Leaves-refused s (t, replies (err e')) e v h = v
    Leaves-refused s (t, calls_backend a) e v h = absurd (cc)
    Leaves-refused s (t, waits_for_leader a) e v h = absurd (cc)
    Leaves-refused s (t, streams a) e v h = absurd (cc)

    entered-Leaves :
        (s t : AppState L C) (a : Accepted F) (outcome : CoalesceOutcome)
        → Leaves s (t, elim outcome [ leader ↦ calls_backend a | joined ↦ waits_for_leader a ])
    entered-Leaves s t a leader = tt
    entered-Leaves s t a joined = tt

    after_lookup-Leaves :
        (now : Now) (s t : AppState L C) (a : Accepted F) (cached : Option BackendChatResponse)
        → Leaves s (after_lookup L C is_header now t a cached)
    unfolding after_lookup
    after_lookup-Leaves now s t a (some cached) = tt
    after_lookup-Leaves now s t a none =
        entered-Leaves s _ a (enter t.coalescer a.fingerprint a.caller).1

    module _ (format4 : F → Text) (digest : Text → List ℕ) (registry : ApiKeyRegistry) where
      after_limiter-Leaves :
          (now : Now) (s : AppState L C) (i : Ingress F) (context : AuthContext)
          (request : NormalizedChatRequest F) (limiter : L.State)
          (result : Result RateLimitSnapshot RateLimitError)
          → Leaves s (
              after_limiter L C is_header format4 digest registry now
                (record s { limiter = limiter })
                i
                context
                request
                result)
      unfolding after_limiter one_shot_completion
      after_limiter-Leaves now s i context request limiter (err e) = record {
        cache = refl;
        coalescer = refl;
        observed = refl;
      }
      after_limiter-Leaves now s i context request limiter (ok snapshot) =
          elim (Bool-cases request.stream) [
            | inl yes_stream ↦ simp yes_stream tt
            | inr no_stream ↦ simp no_stream (after_lookup-Leaves now s _ _ _)
          ]

      after_normalization-Leaves :
          (now : Now) (s : AppState L C) (i : Ingress F) (context : AuthContext)
          (normalized : Result (NormalizedChatRequest F) Text)
          → Leaves s
              (after_normalization L C is_header format4 digest registry now s i context normalized)
      unfolding after_normalization
      after_normalization-Leaves now s i context (err message) = same s
      after_normalization-Leaves now s i context (ok request) =
          after_limiter-Leaves now s i context request _ _

      after_authentication-Leaves :
          (now : Now) (s : AppState L C) (i : Ingress F)
          (authenticated : Result AuthContext AppError)
          → Leaves s
              (after_authentication L C is_header format4 digest registry now s i authenticated)
      unfolding after_authentication
      after_authentication-Leaves now s i (err e) = same s
      after_authentication-Leaves now s i (ok context) =
          after_normalization-Leaves now s i context _

      -- A request that is refused, for its key, its body or a quota, has not looked in the cache or
      -- entered the coalescer, and so has not called the backend, and no usage and no error of a
      -- backend is observed for it.
      pub process-Untouched :
          (now : Now) (s : AppState L C) (i : Ingress F) (e : AppError)
          → (process_chat_completions L C is_header format4 digest registry now s i).1
            ≡ replies (err e)
          → Untouched s (process_chat_completions L C is_header format4 digest registry now s i).0
      unfolding process_chat_completions
      process-Untouched now s i e =
          Leaves-refused s
            (after_authentication L C is_header format4 digest registry now s i
              (authenticate registry i.header))
            e (after_authentication-Leaves now s i (authenticate registry i.header))
