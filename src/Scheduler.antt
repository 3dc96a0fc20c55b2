-- ===== src/Scheduler.antt =====
-- src/scheduler.rs: the fingerprint by which requests are cached and coalesced. SHA-256 is the
-- parameter `digest`, from a text to the bytes of its digest, and `format!("{number:.4}")` is
-- `format4`.
pub mod Hex
pub mod Identity
pub mod Forgery
mod Tests
use rust_llm_inference_gatew.Prelude.{
  ℕ, ◌+◌, ◌-◌, ◌/◌, ◌%◌, Option, none, some, List, [], ◌∷◌, ◌++◌, leb, if◌then◌else◌,
}
use rust_llm_inference_gatew.Text.{Text, lit}
use rust_llm_inference_gatew.Text.Decimal.{to_decimal}
use rust_llm_inference_gatew.Models.{
  MessageRole, system, user, assistant, tool, NormalizedMessage, NormalizedChatRequest,
}

-- `Option<u32>::unwrap_or_default()`
pub max_tokens_or_default : Option ℕ → ℕ
max_tokens_or_default none = 0
max_tokens_or_default (some n) = n

pub role_text : MessageRole → Text
role_text system = lit "system"
role_text user = lit "user"
role_text assistant = lit "assistant"
role_text tool = lit "tool"

-- The characters `|` and `:` are 124 and 58.
pub append_message : Text → NormalizedMessage → Text
unfolding role_text
append_message buffer message = buffer ++ (124 ∷ role_text message.role ++ (58 ∷ message.content))

pub append_messages : Text → List NormalizedMessage → Text
append_messages buffer [] = buffer
append_messages buffer (message ∷ messages) =
    append_messages (append_message buffer message) messages

-- The characters `0` and `a` are 48 and 97.
pub nibble_to_hex : ℕ → ℕ
nibble_to_hex value =
    if leb value 9 then 48 + value else if leb value 15 then 97 + (value - 10) else 48

pub to_hex : List ℕ → Text
unfolding nibble_to_hex
to_hex [] = []
to_hex (byte ∷ bytes) = nibble_to_hex (byte / 16) ∷ nibble_to_hex (byte % 16) ∷ to_hex bytes

module _ {F : Type 0} (format4 : F → Text) where
  pub opt_float : Option F → Text
  opt_float none = lit "none"
  opt_float (some number) = format4 number

  -- What stands before the messages.
  pub payload_head : NormalizedChatRequest F → Text
  unfolding max_tokens_or_default opt_float
  payload_head request =
      request.model
      ++ (124 ∷ to_decimal (max_tokens_or_default request.generation.max_tokens)
          ++ (124 ∷ opt_float request.generation.temperature
              ++ (124 ∷ opt_float request.generation.top_p)))

  pub canonical_payload : NormalizedChatRequest F → Text
  unfolding payload_head append_messages append_message
  canonical_payload request = append_messages (payload_head request) request.messages

  -- The fingerprint is its text, as `as_str` returns it.
  unfoldable pub fingerprint_for : (Text → List ℕ) → NormalizedChatRequest F → Text
  unfolding canonical_payload to_hex
  fingerprint_for digest request = to_hex (digest (canonical_payload request))
