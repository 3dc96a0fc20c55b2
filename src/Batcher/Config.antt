-- ===== src/Batcher/Config.antt =====
-- `BatchConfig::from_env` and `Batcher::submit` of src/batcher.rs, on a platform whose `usize` is `u64`.
pub mod Bounds
use rust_llm_inference_gatew.Prelude.{
  ℕ, ◌+◌, ◌*◌, ◌^◌, ◌≤◌, ◌<◌, ◌≡◌, refl, ap, ◌∙◌, Bool, true, false, ◌&&◌, not, Option, none, some,
  List, [], ◌∷◌, map, leb, ltb, if◌then◌else◌, u64_max, arith, Option-cases, Result, ok, err, inl,
  inr, All, length, max,
}
use rust_llm_inference_gatew.Text.{Text, lit, text_eq}
use rust_llm_inference_gatew.Text.Decimal.Parse.{parse_unsigned, parse_unsigned-le}
use rust_llm_inference_gatew.Env.{Env, unwrap_or, parsed, unwrap_or-parsed-le}
use rust_llm_inference_gatew.Backend.{BackendError, unavailable}
use rust_llm_inference_gatew.Models.{NormalizedChatRequest, BackendChatResponse}
use rust_llm_inference_gatew.Batcher.{BatchConfig, BatchItem, Signal, class_of, run_batch_worker}
use rust_llm_inference_gatew.Batcher.Conservation.Worker.{IsBatch, run_batch_worker-answers}

-- `u8::to_ascii_lowercase`, on each character.
to_ascii_lowercase : Text → Text
to_ascii_lowercase s = map (λ (c : ℕ). if leb 65 c && leb c 90 then c + 32 else c) s

-- `str::eq_ignore_ascii_case`
pub eq_ignore_ascii_case : Text → Text → Bool
unfolding to_ascii_lowercase
eq_ignore_ascii_case s t = text_eq (to_ascii_lowercase s) (to_ascii_lowercase t)

pub enabled_by : Option Text → Bool
unfolding eq_ignore_ascii_case
enabled_by none = true
enabled_by (some value) =
    not (text_eq value (lit "0")) && not (eq_ignore_ascii_case value (lit "false"))

-- `.filter(|value| *value > 0)`
pub positive : Option ℕ → Option ℕ
positive none = none
positive (some value) = if ltb 0 value then some value else none

pub batch_config_from_env : Env → BatchConfig
unfolding enabled_by positive
batch_config_from_env env = record {
  enabled = enabled_by (env (lit "GATEWAY_BATCH_ENABLED"));
  max_batch_size = unwrap_or 8 (positive (parsed u64_max (env (lit "GATEWAY_BATCH_MAX_SIZE"))));
  max_wait = unwrap_or 10 (parsed u64_max (env (lit "GATEWAY_BATCH_MAX_WAIT_MS"))) * 10 ^ 6;
}

-- The item that `submit` sends to the worker.
pub submitted :
    {F : Type 0} → (F → Text) → NormalizedChatRequest F → ℕ → BatchItem (NormalizedChatRequest F)
submitted format4 request response_tx = record {
  class = class_of format4 request;
  request = request;
  response_tx = response_tx;
}

-- What `submit` returns: whether the queue took the item, and what its channel yields.
pub submit_result :
    Bool
    → Option (Result BackendChatResponse BackendError)
    → Result BackendChatResponse BackendError
submit_result false reply = err (unavailable (lit "batcher queue closed"))
submit_result true none = err (unavailable (lit "batch response channel closed"))
submit_result true (some result) = result
