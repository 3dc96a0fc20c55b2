-- ===== src/Batcher.antt =====
-- src/batcher.rs: requests of one class are executed together, up to a size or a wait.
pub mod Conservation
pub mod Config
mod Tests
use rust_llm_inference_gatew.Prelude.{
  ℕ, zero, suc, ◌-◌, Bool, true, false, ◌&&◌, Option, none, some, List, [], ◌∷◌, ◌++◌, map, ◌==◌,
  if◌then◌else◌, Result,
}
use rust_llm_inference_gatew.Text.{Text, lit, text_eq}
use rust_llm_inference_gatew.Backend.{BackendError}
use rust_llm_inference_gatew.Models.{NormalizedChatRequest, BackendChatResponse}

-- `max_wait` is in nanoseconds.
pub record BatchConfig : Type 0 where
  pub enabled : Bool
  pub max_batch_size : ℕ
  pub max_wait : ℕ

pub record BatchClass : Type 0 where
  pub model : Text
  pub max_tokens : Option ℕ
  pub temperature_repr : Text
  pub top_p_repr : Text

-- `format!("{number:.4}")` is the parameter `format4`.
pub format_float : {F : Type 0} → (F → Text) → Option F → Text
format_float format4 none = lit "none"
format_float format4 (some number) = format4 number

-- `BatchClass::from_request`
pub class_of : {F : Type 0} → (F → Text) → NormalizedChatRequest F → BatchClass
unfolding format_float
class_of format4 request = record {
  model = request.model;
  max_tokens = request.generation.max_tokens;
  temperature_repr = format_float format4 request.generation.temperature;
  top_p_repr = format_float format4 request.generation.top_p;
}

max_tokens_eq : Option ℕ → Option ℕ → Bool
max_tokens_eq none none = true
max_tokens_eq none (some b) = false
max_tokens_eq (some a) none = false
max_tokens_eq (some a) (some b) = a == b

-- The derived `==` of `BatchClass`.
pub class_eq : BatchClass → BatchClass → Bool
unfolding max_tokens_eq
class_eq a b =
    text_eq a.model b.model
    && max_tokens_eq a.max_tokens b.max_tokens
    && text_eq a.temperature_repr b.temperature_repr
    && text_eq a.top_p_repr b.top_p_repr

-- A queued request; `response_tx` numbers the channel of its caller.
pub record BatchItem (R : Type 0) : Type 0 where
  pub class : BatchClass
  pub request : R
  pub response_tx : ℕ

-- What the worker's `recv` sees, in order: items, and the ends of waits that ran to their deadline.
-- Where the list ends the channel is closed.
pub data Signal (R : Type 0) : Type 0 where
  arrives : BatchItem R → Signal R
  expires : Signal R

module _ {R : Type 0} where
  -- `pending.iter().position(..)` and `pending.remove(position)`
  pub take_class : BatchClass → List (BatchItem R) → Option (BatchItem R × List (BatchItem R))
  take_class class [] = none
  take_class class (item ∷ items) =
      if class_eq item.class class then some (item, items) else elim (take_class class items) [
        | none ↦ none
        | some (found, rest) ↦ some (found, item ∷ rest)
      ]

  -- The inner loop, with room for so many more items. The results are the batch, what is pending, and
  -- the signals that are left.
  pub fill :
      BatchClass
      → ℕ
      → List (BatchItem R)
      → List (BatchItem R)
      → List (Signal R)
      → List (BatchItem R) × List (BatchItem R) × List (Signal R)
  fill class zero batch pending signals = (batch, pending, signals)
  fill class (suc room) batch pending [] = elim (take_class class pending) [
    | some (item, rest) ↦ fill class room (batch ++ item ∷ []) rest []
    | none ↦ (batch, pending, [])
  ]
  fill class (suc room) batch pending (expires ∷ signals) = elim (take_class class pending) [
    | some (item, rest) ↦ fill class room (batch ++ item ∷ []) rest (expires ∷ signals)
    | none ↦ (batch, pending, signals)
  ]
  fill class (suc room) batch pending (arrives next ∷ signals) = elim (take_class class pending) [
    | some (item, rest) ↦ fill class room (batch ++ item ∷ []) rest (arrives next ∷ signals)
    | none ↦ elim (class_eq next.class class) [
      | true ↦ fill class room (batch ++ next ∷ []) pending signals
      | false ↦ fill class (suc room) batch (pending ++ next ∷ []) signals
    ]
  ]

  -- `rx.recv().await` with no deadline.
  receive : List (Signal R) → Option (BatchItem R × List (Signal R))
  receive [] = none
  receive (arrives item ∷ signals) = some (item, signals)
  receive (expires ∷ signals) = receive signals

  -- The first item of a round, and what it leaves.
  pub next_first :
      List (BatchItem R)
      → List (Signal R)
      → Option (BatchItem R × List (BatchItem R) × List (Signal R))
  unfolding receive
  next_first (item ∷ pending) signals = some (item, pending, signals)
  next_first [] signals = elim (receive signals) [
    | none ↦ none
    | some (item, rest) ↦ some (item, [], rest)
  ]

  -- One round: the batch of the first item.
  pub round :
      BatchConfig
      → BatchItem R
      → List (BatchItem R)
      → List (Signal R)
      → List (BatchItem R) × List (BatchItem R) × List (Signal R)
  unfolding fill
  round config first pending signals =
      if config.enabled
      then fill first.class (config.max_batch_size - 1) (first ∷ []) pending signals
      else (first ∷ [], pending, signals)

  -- The batches that `run_batch_worker` executes, in order. Fuel bounds the rounds; `none` means that
  -- it ran out.
  pub run_batch_worker :
      ℕ → BatchConfig → List (BatchItem R) → List (Signal R) → Option (List (List (BatchItem R)))
  unfolding next_first round
  run_batch_worker zero config pending signals = none
  run_batch_worker (suc fuel) config pending signals = elim (next_first pending signals) [
    | none ↦ some []
    | some (first, pending', signals') ↦
        let (batch, rest, left) = round config first pending' signals' in
        elim (run_batch_worker fuel config rest left) [
          | none ↦ none
          | some batches ↦ some (batch ∷ batches)
        ]
  ]

  -- What the worker sends, and on which channel, for a batch.
  pub responses :
      (R → Result BackendChatResponse BackendError)
      → List (BatchItem R)
      → List (ℕ × Result BackendChatResponse BackendError)
  responses execute items = map (λ item. (item.response_tx, execute item.request)) items
