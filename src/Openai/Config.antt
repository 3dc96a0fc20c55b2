-- ===== src/Openai/Config.antt =====
-- `OpenAiAdapter::from_env`, the URL and the payload of a request of src/backend/openai.rs. The HTTP
-- client is built by a parameter, from its timeout in seconds.
use rust_llm_inference_gatew.Prelude.{
  ℕ, Bool, ◌&&◌, true, Option, none, some, List, [], ◌∷◌, ◌++◌, map, Result, ok, err, ◌==◌,
  if◌then◌else◌, u64_max,
}
use rust_llm_inference_gatew.Text.{Text, lit, is_empty}
use rust_llm_inference_gatew.Env.{Env, unwrap_or, parsed}
use rust_llm_inference_gatew.Models.{
  MessageRole, system, user, assistant, tool, NormalizedMessage, NormalizedChatRequest,
}

pub record OpenAiAdapter (Client : Type 0) : Type 0 where
  pub client : Client
  pub api_key : Text
  pub base_url : Text

-- `trim_end_matches('/')` and `trim_start_matches('/')`; the character is 47.
unfoldable pub trim_end_slashes : Text → Text
trim_end_slashes [] = []
trim_end_slashes (c ∷ s) =
    let rest = trim_end_slashes s in if c == 47 && is_empty rest then [] else c ∷ rest

pub trim_start_slashes : Text → Text
trim_start_slashes [] = []
trim_start_slashes (c ∷ s) = let rest = trim_start_slashes s in if c == 47 then rest else c ∷ s

-- `.filter(|value| !value.is_empty())`
unfoldable pub nonempty : Option Text → Option Text
nonempty none = none
nonempty (some value) = if is_empty value then none else some value

module _ {Client : Type 0} (build : ℕ → Result Client Text) where
  unfoldable pub with_client :
      Env → Text → Result Client Text → Result (Option (OpenAiAdapter Client)) Text
  unfolding trim_end_slashes
  with_client env api_key (err error) = err (lit "failed to build OpenAI HTTP client: " ++ error)
  with_client env api_key (ok client) = ok (
      some (record {
        client = client;
        api_key = api_key;
        base_url =
            trim_end_slashes
              (unwrap_or (lit "https://api.openai.com/v1") (env (lit "OPENAI_BASE_URL")));
      }))

  unfoldable pub adapter_with_key : Env → Option Text → Result (Option (OpenAiAdapter Client)) Text
  unfolding with_client
  adapter_with_key env none = ok none
  adapter_with_key env (some api_key) =
      with_client env api_key
        (build (unwrap_or 60 (parsed u64_max (env (lit "OPENAI_TIMEOUT_SECS")))))

  unfoldable pub openai_from_env : Env → Result (Option (OpenAiAdapter Client)) Text
  unfolding adapter_with_key nonempty
  openai_from_env env = adapter_with_key env (nonempty (env (lit "OPENAI_API_KEY")))

unfoldable pub url : {Client : Type 0} → OpenAiAdapter Client → Text → Text
unfolding trim_start_slashes
url adapter path = adapter.base_url ++ (lit "/" ++ trim_start_slashes path)

pub role_name : MessageRole → Text
role_name system = lit "system"
role_name user = lit "user"
role_name assistant = lit "assistant"
role_name tool = lit "tool"

-- The JSON object that is sent, a message as its role and its content. `include_usage` is the option of
-- a stream.
pub record Payload (F : Type 0) : Type 0 where
  pub model : Text
  pub messages : List (Text × Text)
  pub max_tokens : Option ℕ
  pub temperature : Option F
  pub top_p : Option F
  pub stream : Bool
  pub include_usage : Option Bool

pub payload : {F : Type 0} → NormalizedChatRequest F → Bool → Payload F
unfolding role_name
payload request stream = record {
  model = request.model;
  messages =
      map (λ (message : NormalizedMessage). (role_name message.role, message.content))
        request.messages;
  max_tokens = request.generation.max_tokens;
  temperature = request.generation.temperature;
  top_p = request.generation.top_p;
  stream = stream;
  include_usage = if stream then some true else none;
}
