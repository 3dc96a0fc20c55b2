-- ===== src/Handlers/OneShot/Shared.antt =====
-- Two callers of src/handlers.rs who ask for the same at the same time.
use rust_llm_inference_gatew.Prelude.{
  ℕ, ◌≡◌, refl, sym, ap, ◌∙◌, subst, Bool, none, some, List, [], ◌∷◌, ◌++◌, Result, ok, err, inl,
  In, In-append_right,
}
use rust_llm_inference_gatew.Text.{Text}
use rust_llm_inference_gatew.HashMap.{get, insert, get-insert_self, get-remove_self}
use rust_llm_inference_gatew.Backend.{BackendError}
use rust_llm_inference_gatew.Models.{BackendChatResponse}
use rust_llm_inference_gatew.Limits.Interface.{RateLimiter}
use rust_llm_inference_gatew.Cache.Interface.{Cache}
use rust_llm_inference_gatew.Coalescing.OneShot.{
  InflightCoalescer, CoalesceOutcome, leader, joined, Reply, complete, follower_result,
}
use rust_llm_inference_gatew.Coalescing.OneShot.Steps.{
  with_waiters, enter_free, enter_held, complete_held,
}
use rust_llm_inference_gatew.Handlers.OneShot.{
  Now, AppState, Accepted, Progress, calls_backend, waits_for_leader, after_lookup,
  one_shot_completion, resume_leader,
}

module _ (L : RateLimiter) (C : Cache) where
  resume_leader-coalescer :
      (s : AppState L C) (fingerprint : Text) (result : Result BackendChatResponse BackendError)
      → (resume_leader L C s fingerprint result).0.coalescer
        ≡ complete s.coalescer fingerprint result
  unfolding resume_leader
  resume_leader-coalescer s fingerprint (ok response) = refl
  resume_leader-coalescer s fingerprint (err error) = refl

module _ (L : RateLimiter) (C : Cache) {F : Type 0} (is_header : Text → Text → Bool) where
  abbrev Misses : Now → AppState L C → Accepted F → Type 0
  Misses now s a = (C.get now.instant s.cache a.fingerprint).1 ≡ none

  abbrev with_cache : Now → AppState L C → Accepted F → AppState L C
  with_cache now s a = record s { cache = (C.get now.instant s.cache a.fingerprint).0 }

  abbrev entered :
      AppState L C → Accepted F → InflightCoalescer × CoalesceOutcome → AppState L C × Progress F
  entered s a (coalescer, outcome) = (
    record s { coalescer = coalescer },
    elim outcome [ leader ↦ calls_backend a | joined ↦ waits_for_leader a ],
  )

  one_shot_completion_leads :
      (now : Now) (s : AppState L C) (a : Accepted F)
      → Misses now s a
      → get s.coalescer.inflight a.fingerprint ≡ none
      → one_shot_completion L C is_header now s a ≡ (
        record (with_cache now s a) { coalescer = with_waiters s.coalescer a.fingerprint [] },
        calls_backend a,
      )
  unfolding one_shot_completion after_lookup
  one_shot_completion_leads now s a missed free =
      ap (after_lookup L C is_header now (with_cache now s a) a) missed
      ∙ ap (entered (with_cache now s a) a) (enter_free s.coalescer a.fingerprint a.caller free)

  one_shot_completion_joins :
      (now : Now) (s : AppState L C) (a : Accepted F) (waiters : List ℕ)
      → Misses now s a
      → get s.coalescer.inflight a.fingerprint ≡ some waiters
      → one_shot_completion L C is_header now s a ≡ (
        record (with_cache now s a) {
          coalescer = with_waiters s.coalescer a.fingerprint (waiters ++ a.caller ∷ []);
        },
        waits_for_leader a,
      )
  unfolding one_shot_completion after_lookup
  one_shot_completion_joins now s a waiters missed held =
      ap (after_lookup L C is_header now (with_cache now s a) a) missed
      ∙ ap (entered (with_cache now s a) a)
          (enter_held s.coalescer a.fingerprint a.caller waiters held)

  module _ (t1 t2 : Now) (s : AppState L C) (a b : Accepted F) where
    -- The state after the first caller, after the second, and when the backend has returned.
    abbrev pub first : AppState L C × Progress F
    first = one_shot_completion L C is_header t1 s a

    abbrev pub second : AppState L C × Progress F
    second = one_shot_completion L C is_header t2 first.0 b

    abbrev pub third : Result BackendChatResponse BackendError → AppState L C
    third result = (resume_leader L C second.0 a.fingerprint result).0

    -- Where nobody asks for a fingerprint and the cache does not have it, of two callers who ask for it
    -- the first calls the backend and the second waits; when the backend has returned, the second is sent
    -- the result, and nobody is in flight for the fingerprint.
    pub resume_leader-shares :
        get s.coalescer.inflight a.fingerprint ≡ none
        → b.fingerprint ≡ a.fingerprint
        → Misses t1 s a
        → Misses t2 first.0 b
        → (result : Result BackendChatResponse BackendError)
        → (first.1 ≡ calls_backend a)
          × (second.1 ≡ waits_for_leader b)
          × In {A = ℕ × Reply} (b.caller, follower_result result) (third result).coalescer.sent
          × (get (third result).coalescer.inflight a.fingerprint ≡ none)
    resume_leader-shares free same missed missed_again result = (
      ap (λ r. r.1) led,
      ap (λ r. r.1) followed,
      subst (In {A = ℕ × Reply} reply)
          (sym (
            ap (λ (c : InflightCoalescer). c.sent) completed
            ∙ complete_held second.0.coalescer a.fingerprint result (b.caller ∷ []) held))
          (In-append_right reply second.0.coalescer.sent (reply ∷ []) (inl refl)),
      ap (λ (c : InflightCoalescer). get c.inflight a.fingerprint) completed
          ∙ (unfold complete in get-remove_self second.0.coalescer.inflight a.fingerprint),
    )
      where
        reply : ℕ × Reply
        reply = (b.caller, follower_result result)

        led : first ≡ (
          record (with_cache t1 s a) { coalescer = with_waiters s.coalescer a.fingerprint [] },
          calls_backend a,
        )
        led = one_shot_completion_leads t1 s a missed free

        leading : get first.0.coalescer.inflight b.fingerprint ≡ some []
        leading =
            ap (get first.0.coalescer.inflight) same
            ∙ ap (λ r. get r.0.coalescer.inflight a.fingerprint) led
            ∙ get-insert_self s.coalescer.inflight a.fingerprint []

        followed : second ≡ (
          record (with_cache t2 first.0 b) {
            coalescer = with_waiters first.0.coalescer b.fingerprint (b.caller ∷ []);
          },
          waits_for_leader b,
        )
        followed = one_shot_completion_joins t2 first.0 b [] missed_again leading

        held : get second.0.coalescer.inflight a.fingerprint ≡ some (b.caller ∷ [])
        held =
            ap (λ r. get r.0.coalescer.inflight a.fingerprint) followed
            ∙ ap (λ key. get (insert first.0.coalescer.inflight key (b.caller ∷ [])) a.fingerprint)
                same
            ∙ get-insert_self first.0.coalescer.inflight a.fingerprint (b.caller ∷ [])

        completed : (third result).coalescer ≡ complete second.0.coalescer a.fingerprint result
        completed = resume_leader-coalescer L C second.0 a.fingerprint result
