-- ===== src/Coalescing/OneShot.antt =====
-- The one-shot half of src/coalescing.rs. A caller is a number and owns one `oneshot` channel, whose
-- sender is in the map of `inflight` or has been used; the mutex makes each access one step.
pub mod Leaders
pub mod Steps
use rust_llm_inference_gatew.Prelude.{
  ℕ, Bool, Option, none, some, List, [], ◌∷◌, ◌++◌, map, Result, ok, err, ◌==◌, if◌then◌else◌,
}
use rust_llm_inference_gatew.Text.{Text, lit}
use rust_llm_inference_gatew.HashMap.{HashMap, empty, get, insert, remove}
use rust_llm_inference_gatew.Backend.{BackendError, unavailable, error_text}
use rust_llm_inference_gatew.Models.{BackendChatResponse}

pub data CoalesceOutcome : Type 0 where
  leader joined : CoalesceOutcome

-- What a waiter is sent: `Result<BackendChatResponse, String>`.
abbrev pub Reply : Type 0
Reply = Result BackendChatResponse Text

-- The map of waiters, and what has been sent, by the waiter that it was sent to.
pub record InflightCoalescer : Type 0 where
  pub inflight : HashMap (List ℕ)
  pub sent : List (ℕ × Reply)

join : InflightCoalescer → Text → ℕ → Option (List ℕ) → InflightCoalescer × CoalesceOutcome
join c key caller (some waiters) =
    (record c { inflight = insert c.inflight key (waiters ++ caller ∷ []) }, joined)
join c key caller none = (record c { inflight = insert c.inflight key [] }, leader)

-- The first block of `execute_or_join`.
unfoldable pub enter : InflightCoalescer → Text → ℕ → InflightCoalescer × CoalesceOutcome
unfolding join
enter c key caller = join c key caller (get c.inflight key)

unfoldable pub follower_result : Result BackendChatResponse BackendError → Reply
follower_result (ok response) = ok response
follower_result (err error) = err (error_text error)

waiters_of : Option (List ℕ) → List ℕ
waiters_of none = []
waiters_of (some waiters) = waiters

-- What the leader does with the backend's result: it takes the entry of its key out and sends every
-- waiter the result.
unfoldable pub complete :
    InflightCoalescer → Text → Result BackendChatResponse BackendError → InflightCoalescer
unfolding waiters_of follower_result
complete c key leader_result = record {
  inflight = remove c.inflight key;
  sent =
      c.sent
      ++ map (λ waiter. (waiter, follower_result leader_result)) (waiters_of (get c.inflight key));
}

-- What `execute_or_join` returns to the leader, and to a follower whose channel yields a reply or,
-- with `none`, closes without one.
unfoldable pub leader_outcome :
    Result BackendChatResponse BackendError
    → Result (BackendChatResponse × CoalesceOutcome) BackendError
leader_outcome (ok response) = ok (response, leader)
leader_outcome (err error) = err error

unfoldable pub joined_outcome :
    Option Reply → Result (BackendChatResponse × CoalesceOutcome) BackendError
joined_outcome (some (ok response)) = ok (response, joined)
joined_outcome (some (err message)) = err (unavailable message)
joined_outcome none = err (unavailable (lit "leader request dropped before completion"))
