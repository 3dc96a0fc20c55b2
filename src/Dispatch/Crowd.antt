-- ===== src/Dispatch/Crowd.antt =====
-- The callers of src/handlers.rs who ask for one fingerprint together, through src/coalescing.rs,
-- src/batcher.rs and src/router.rs.
use mathlib.Core.Logic.Or
use mathlib.Core.Path.{ap₂}
use mathlib.Core.HLevel.{⊥_prop}
use mathlib.Core.List.{Perm, Mem, mem-cons, mem-cons_self, mem-cons_of_mem, not-mem-nil}
use mathlib.Core.List.Perm
use rust_llm_inference_gatew.Prelude.{
  ℕ, suc, ◌<◌, ◌≡◌, refl, sym, ap, ◌∙◌, subst, arith, none, some, Option, Option-cases, List, [],
  ◌∷◌, ◌++◌, map, Result, length, In, inl, inr, ◌==◌, if◌then◌else◌, append_assoc, append-nil,
}
use rust_llm_inference_gatew.Text.{Text}
use rust_llm_inference_gatew.HashMap.{get, get-insert_self, get-remove_self}
use rust_llm_inference_gatew.Backend.{BackendError}
use rust_llm_inference_gatew.Models.{BackendChatResponse}
use rust_llm_inference_gatew.Coalescing.OneShot.{
  InflightCoalescer, CoalesceOutcome, leader, joined, Reply, enter, complete, follower_result,
}
use rust_llm_inference_gatew.Coalescing.OneShot.Steps.{
  with_waiters, enter_free, enter_held, complete_held,
}
use rust_llm_inference_gatew.Router.{BackendRouter, Answer}
use rust_llm_inference_gatew.Batcher.{BatchConfig, BatchItem, Signal}
use rust_llm_inference_gatew.Batcher.Conservation.{items, flatten}
use rust_llm_inference_gatew.Dispatch.{Sent, dispatch}
use rust_llm_inference_gatew.Dispatch.Answered.{AreServed, dispatch-answers}

-- Callers who arrive one after the other while nobody answers, and what each is told.
pub enter_all : InflightCoalescer → Text → List ℕ → InflightCoalescer × List CoalesceOutcome
enter_all c key [] = (c, [])
enter_all c key (caller ∷ callers) =
    let (c', outcome) = enter c key caller in
    let (after, outcomes) = enter_all c' key callers in (after, outcome ∷ outcomes)

-- What the receiver of a `oneshot` channel yields.
pub reply_to : ℕ → List Sent → Option (Result BackendChatResponse BackendError)
reply_to tx [] = none
reply_to tx (s ∷ sent) = let rest = reply_to tx sent in if s.0 == tx then some s.1 else rest

-- Callers join a key that is held: they are appended to its waiters.
enter_all_held :
    (c : InflightCoalescer) (key : Text) (callers waiters : List ℕ)
    → get c.inflight key ≡ some waiters
    → ((enter_all c key callers).1 ≡ map (λ caller. joined) callers)
      × (get (enter_all c key callers).0.inflight key ≡ some (waiters ++ callers))
      × ((enter_all c key callers).0.sent ≡ c.sent)
unfolding enter_all
enter_all_held c key [] waiters held = (refl, held ∙ ap some (sym (append-nil waiters)), refl)
enter_all_held c key (caller ∷ callers) waiters held =
    let c' = with_waiters c key (waiters ++ caller ∷ []) in
    let (outcomes, held', sent) =
      enter_all_held c' key callers (waiters ++ caller ∷ [])
        (get-insert_self c.inflight key (waiters ++ caller ∷ [])) in
    rw (enter_held c key caller waiters held) (
      ap (λ (os : List CoalesceOutcome). joined ∷ os) outcomes,
      held' ∙ ap some (append_assoc waiters (caller ∷ []) callers),
      sent,
    )

-- Callers of a free key: the first leads, and the others are its waiters.
enter_all_free :
    (c : InflightCoalescer) (key : Text) (first : ℕ) (rest : List ℕ)
    → get c.inflight key ≡ none
    → ((enter_all c key (first ∷ rest)).1 ≡ leader ∷ map (λ caller. joined) rest)
      × (get (enter_all c key (first ∷ rest)).0.inflight key ≡ some rest)
      × ((enter_all c key (first ∷ rest)).0.sent ≡ c.sent)
unfolding enter_all
enter_all_free c key first rest free =
    let (outcomes, held, sent) =
      enter_all_held (with_waiters c key []) key rest [] (get-insert_self c.inflight key []) in
    rw (enter_free c key first free)
      (ap (λ (os : List CoalesceOutcome). leader ∷ os) outcomes, held, sent)

In-Mem : (a : ℕ) (xs : List ℕ) → In a xs → Mem a xs
In-Mem a [] h = absurd h
In-Mem a (x ∷ xs) (inl e) = subst (λ b. Mem a (b ∷ xs)) e mem-cons_self
In-Mem a (x ∷ xs) (inr h) = mem-cons_of_mem x (In-Mem a xs h)

reply_to-none :
    (tx : ℕ) (sent : List Sent) → reply_to tx sent ≡ none → ¬ Mem tx (map (λ s. s.0) sent)
unfolding reply_to
reply_to-none tx [] e m = not-mem-nil m
reply_to-none tx (s ∷ sent) e m =
    Or.elim ⊥_prop (mem-cons.0 m) (λ same. absurd (ground arith))
      (reply_to-none tx sent (ground arith))

module _ {R : Type 0} (now : ℕ → ℕ) (answers : ℕ → R → ℕ → Answer BackendChatResponse) where
  channels-AreServed :
      (r : BackendRouter) (call : ℕ) (batch : List (BatchItem R)) (sent : List Sent)
      (after : BackendRouter)
      → AreServed now answers r call batch sent after
      → map (λ (s : Sent). s.0) sent ≡ map (λ (i : BatchItem R). i.response_tx) batch
  channels-AreServed r call [] [] after a = refl
  channels-AreServed r call [] (s ∷ sent) after a = absurd a
  channels-AreServed r call (item ∷ batch) [] after a = absurd a
  channels-AreServed r call (item ∷ batch) (s ∷ sent) after a =
      ap₂ (λ x (xs : List ℕ). x ∷ xs) a.0
        (channels-AreServed a.1.0 (suc call) batch sent after a.1.2)

  -- Who queued a request is sent a reply.
  reply_to-AreServed :
      (tx : ℕ) (r : BackendRouter) (batch : List (BatchItem R)) (queued : List (BatchItem R))
      (sent : List Sent) (after : BackendRouter)
      → In tx (map (λ (i : BatchItem R). i.response_tx) queued)
      → Perm batch queued
      → AreServed now answers r 0 batch sent after
      → (result : Result BackendChatResponse BackendError) × (reply_to tx sent ≡ some result)
  reply_to-AreServed tx r batch queued sent after mine same a =
      elim (Option-cases (reply_to tx sent)) [
        | inl silent ↦ absurd (
            reply_to-none tx sent silent (
              subst (Mem tx) (sym (channels-AreServed r 0 batch sent after a)) (
                (Perm.mem_iff (Perm.map (λ (i : BatchItem R). i.response_tx) same)).1
                  (In-Mem tx _ mine))))
        | inr answered ↦ answered
      ]

  -- Of callers who ask for a free key before anyone has answered, the first queues a request and the
  -- others wait. Whatever else is queued, given enough rounds the worker ends, and the queued requests
  -- have been served one after the other, each once: by one selection of the router as the one before
  -- left it, with the answer of the endpoint taken, or, if none was, with the error that all are
  -- unhealthy. The first caller is sent a result, and with that result, whatever it is, all the others
  -- are answered too, and the key is free again.
  pub crowd-answered :
      (c : InflightCoalescer) (key : Text) (first : ℕ) (rest : List ℕ) (fuel : ℕ)
      (config : BatchConfig) (r : BackendRouter) (signals : List (Signal R)) (tx : ℕ)
      → get c.inflight key ≡ none
      → length signals < fuel
      → In tx (map (λ (i : BatchItem R). i.response_tx) (items signals))
      → let entered = enter_all c key (first ∷ rest) in
        (entered.1 ≡ leader ∷ map (λ caller. joined) rest)
        × ((batches : List (List (BatchItem R))) × (after : BackendRouter) × (sent : List Sent)
            × (result : Result BackendChatResponse BackendError) × (dispatch now answers fuel config
                  r signals
                ≡ some (after, sent))
            × Perm (flatten batches) (items signals)
            × AreServed now answers r 0 (flatten batches) sent after
            × (reply_to tx sent ≡ some result)
            × ((complete entered.0 key result).sent
                ≡ c.sent ++ map (λ caller. (caller, follower_result result)) rest)
            × (get (complete entered.0 key result).inflight key ≡ none))
  crowd-answered c key first rest fuel config r signals tx free enough mine =
      let (outcomes, held, nothing) = enter_all_free c key first rest free in
      let (batches, sent, after, done, same, whole, served) =
        dispatch-answers now answers fuel config r signals enough in
      let (result, replied) =
        reply_to-AreServed tx r (flatten batches) (items signals) sent after mine same served in
      (
        outcomes,
        (
          batches,
          after,
          sent,
          result,
          done,
          same,
          served,
          replied,
          complete_held (enter_all c key (first ∷ rest)).0 key result rest held
              ∙ ap
                  (λ (l : List (ℕ × Reply)).
                    l ++ map (λ caller. (caller, follower_result result)) rest)
                  nothing,
          unfold complete in get-remove_self (enter_all c key (first ∷ rest)).0.inflight key,
        ),
      )
