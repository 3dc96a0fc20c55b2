-- ===== src/Mock.antt =====
-- src/backend/mock.rs: a backend that answers with the prompt. The delay between tokens is left out.
pub mod Agreement
mod Tests
use rust_llm_inference_gatew.Prelude.{
  ℕ, Bool, true, false, Option, none, some, List, [], ◌∷◌, ◌++◌, map, Result, ok, length,
  if◌then◌else◌, as_u32, sum_u32,
}
use rust_llm_inference_gatew.Text.{Text, lit, trim, is_empty, split_whitespace}
use rust_llm_inference_gatew.Backend.{BackendError}
use rust_llm_inference_gatew.Models.{
  MessageRole, system, user, assistant, tool, Usage, new_usage, BackendChatResponse, BackendChunk,
  NormalizedMessage, NormalizedChatRequest,
}

pub rough_token_estimate : Text → ℕ
rough_token_estimate text =
    if is_empty (trim text) then 0 else as_u32 (length (split_whitespace text))

is_user : MessageRole → Bool
is_user user = true
is_user system = false
is_user assistant = false
is_user tool = false

-- The content of the last message of a user.
last_prompt : List NormalizedMessage → Option Text
unfolding is_user
last_prompt [] = none
last_prompt (message ∷ messages) = elim (last_prompt messages) [
  | none ↦ if is_user message.role then some message.content else none
  | some prompt ↦ some prompt
]

prompt_or_hello : Option Text → Text
prompt_or_hello none = lit "hello"
prompt_or_hello (some prompt) = prompt

-- Every token but the last is followed by a space.
spaced : List Text → List Text
spaced [] = []
spaced (token ∷ []) = token ∷ []
spaced (token ∷ next ∷ tokens) = (token ++ 32 ∷ []) ∷ spaced (next ∷ tokens)

pub split_for_stream : Text → List Text
unfolding spaced
split_for_stream text = spaced (split_whitespace text)

module _ {F : Type 0} (request : NormalizedChatRequest F) where
  pub render_response : Text
  unfolding last_prompt prompt_or_hello
  render_response =
      lit "Mock response for model "
      ++ (request.model ++ (lit ": " ++ prompt_or_hello (last_prompt request.messages)))

  pub estimate_usage : Text → Usage
  unfolding rough_token_estimate
  estimate_usage completion =
      new_usage
        (sum_u32 (
          map (λ (message : NormalizedMessage). rough_token_estimate message.content)
            request.messages))
        (rough_token_estimate completion)

  pub execute_chat : BackendChatResponse
  unfolding render_response estimate_usage
  execute_chat = record {
    content = render_response;
    finish_reason = lit "stop";
    usage = estimate_usage render_response;
  }

  abbrev token_chunk : Text → Result BackendChunk BackendError
  token_chunk token =
      ok (record { delta = some token; finish_reason = none; usage = none; done = false })

  abbrev last_chunk : Result BackendChunk BackendError
  last_chunk = ok (record {
    delta = none;
    finish_reason = some (lit "stop");
    usage = some (estimate_usage render_response);
    done = true;
  })

  -- What the task of `stream_chat` sends.
  pub stream_chat : List (Result BackendChunk BackendError)
  unfolding split_for_stream render_response estimate_usage
  stream_chat = map token_chunk (split_for_stream render_response) ++ last_chunk ∷ []
