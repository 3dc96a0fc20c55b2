-- ===== src/Openai.antt =====
-- src/backend/openai.rs: the adapter of an OpenAI-compatible HTTP API. The HTTP client is reqwest's
-- and the JSON codec serde's: what they return is an argument.
pub mod Stream
pub mod Config
use mathlib.Core.List.{reverse}
use rust_llm_inference_gatew.Prelude.{
  ℕ, ◌+◌, Bool, ◌&&◌, Option, none, some, List, [], ◌∷◌, ◌++◌, map, take, Result, ok, err, ◌==◌,
  leb, ltb, if◌then◌else◌, as_u32, sum_u32, length,
}
use rust_llm_inference_gatew.Text.{Text, lit, trim, is_empty, split_whitespace}
use rust_llm_inference_gatew.Text.Decimal.{to_decimal}
use rust_llm_inference_gatew.Backend.{BackendError, unavailable, timeout, invalid_response}
use rust_llm_inference_gatew.Models.{
  Usage, new_usage, BackendChatResponse, NormalizedMessage, NormalizedChatRequest,
}

pub record OpenAiUsage : Type 0 where
  pub prompt_tokens : ℕ
  pub completion_tokens : ℕ
  pub total_tokens : ℕ

pub record OpenAiMessage : Type 0 where
  pub content : Option Text

pub record OpenAiChoice : Type 0 where
  pub message : OpenAiMessage
  pub finish_reason : Option Text

pub record OpenAiChatResponse : Type 0 where
  pub choices : List OpenAiChoice
  pub usage : Option OpenAiUsage

pub record OpenAiDelta : Type 0 where
  pub content : Option Text

pub record OpenAiStreamChoice : Type 0 where
  pub delta : OpenAiDelta
  pub finish_reason : Option Text

pub record OpenAiStreamResponse : Type 0 where
  pub choices : List OpenAiStreamChoice
  pub usage : Option OpenAiUsage

-- `From<OpenAiUsage> for Usage`
unfoldable pub usage_from : OpenAiUsage → Usage
usage_from u = record {
  prompt_tokens = u.prompt_tokens;
  completion_tokens = u.completion_tokens;
  total_tokens = u.total_tokens;
}

unfoldable pub rough_token_estimate : Text → ℕ
rough_token_estimate text =
    if is_empty (trim text) then 0 else as_u32 (length (split_whitespace text))

unfoldable pub unwrap_or {ℓ} : {A : Type ℓ} → A → Option A → A
unwrap_or a none = a
unwrap_or a (some b) = b

-- `StatusCode::is_success`
is_success : ℕ → Bool
is_success status = leb 200 status && ltb status 300

-- The three status codes are 429, 408 and 504.
unfoldable pub map_http_error : ℕ → Text → BackendError
map_http_error status body =
    if status == 429
    then unavailable (lit "rate limited: " ++ take 400 body)
    else if status == 408
    then timeout (lit "upstream timeout: " ++ take 400 body)
    else if status == 504
    then timeout (lit "upstream timeout: " ++ take 400 body)
    else invalid_response (lit "status " ++ (to_decimal status ++ (lit ": " ++ take 400 body)))

-- A response of the HTTP client: its status, and what reading its body as text or as JSON yields.
pub record HttpResponse : Type 0 where
  pub status : ℕ
  pub text : Result Text Text
  pub json : Result OpenAiChatResponse Text

body_text : Result Text Text → Text
body_text (ok body) = body
body_text (err e) = lit "unknown backend error"

estimated_usage : List NormalizedMessage → Text → Usage
estimated_usage messages content =
    new_usage
      (sum_u32
        (map (λ (message : NormalizedMessage). rough_token_estimate message.content) messages))
      (rough_token_estimate content)

-- The usage that the response reports, or else the estimate.
reply_usage : List NormalizedMessage → Text → Option OpenAiUsage → Usage
unfolding usage_from estimated_usage
reply_usage messages content none = estimated_usage messages content
reply_usage messages content (some u) = usage_from u

first_choice :
    List NormalizedMessage
    → Option OpenAiUsage
    → List OpenAiChoice
    → Result BackendChatResponse BackendError
unfolding unwrap_or reply_usage
first_choice messages usage [] = err (invalid_response (lit "missing choices in response"))
first_choice messages usage (choice ∷ choices) =
    let content = unwrap_or [] choice.message.content in
    ok (record {
      content = content;
      finish_reason = unwrap_or (lit "stop") choice.finish_reason;
      usage = reply_usage messages content usage;
    })

parsed_response :
    List NormalizedMessage
    → Result OpenAiChatResponse Text
    → Result BackendChatResponse BackendError
unfolding first_choice
parsed_response messages (err e) = err (invalid_response e)
parsed_response messages (ok parsed) = first_choice messages parsed.usage parsed.choices

-- `execute_chat`, on what sending the request yields.
unfoldable pub execute_chat :
    {F : Type 0}
    → NormalizedChatRequest F
    → Result HttpResponse Text
    → Result BackendChatResponse BackendError
unfolding is_success map_http_error body_text parsed_response
execute_chat request (err e) = err (unavailable e)
execute_chat request (ok response) =
    if is_success response.status
    then parsed_response request.messages response.json
    else err (map_http_error response.status (body_text response.text))
