-- ===== src/Startup/Tests.antt =====
-- A gateway with one provider and no Redis.
use rust_llm_inference_gatew.Prelude.{
  ℕ, ◌≡◌, refl, none, some, Result, ok, err, if◌then◌else◌, [], ◌∷◌,
}
use rust_llm_inference_gatew.Text.{Text, lit, text_eq}
use rust_llm_inference_gatew.Env.{Env}
use rust_llm_inference_gatew.Openai.Config.{OpenAiAdapter, url}
use rust_llm_inference_gatew.Startup.{Gateway, openai_backend, new_state}

abbrev env : Env
env name =
    if text_eq name (lit "OPENAI_API_KEY")
    then some (lit "sk")
    else if text_eq name (lit "OPENAI_BASE_URL")
    then some (lit "http://llm/v1//")
    else none

abbrev build : ℕ → Result ℕ Text
build timeout = ok timeout

abbrev open_client : Text → Result ℕ Text
open_client redis_url = err redis_url

abbrev adapter : OpenAiAdapter ℕ
adapter = record { client = 60; api_key = lit "sk"; base_url = lit "http://llm/v1" }

chat_url : url adapter (lit "/chat/completions") ≡ lit "http://llm/v1/chat/completions"
unfolding url lit
chat_url = refl

abbrev gateway : Gateway ℕ ℕ
gateway = new_state build open_client env (openai_backend adapter ∷ [])
