-- ===== src/Errors.antt =====
-- src/errors.rs: the errors of the gateway and their HTTP responses. The checks of
-- `HeaderName::from_bytes` and `HeaderValue::from_str` are the http crate's: a parameter says which
-- headers pass. Its map of headers is `HashMap`, by the names as they are written here, all in lower
-- case.
mod Responses
use rust_llm_inference_gatew.Prelude.{ℕ, Bool, List, [], ◌∷◌, if◌then◌else◌}
use rust_llm_inference_gatew.Text.{Text, lit}
use rust_llm_inference_gatew.HashMap.{HashMap, empty, insert}

pub data AppError : Type 0 where
  bad_request unauthorized backend internal : Text → AppError
  rate_limited : Text → List (Text × Text) → AppError

-- `OpenAiErrorEnvelope`, without its one layer.
pub record OpenAiError : Type 0 where
  pub message : Text
  pub error_type : Text

-- A response with a body of type `B`.
pub record Response (B : Type 0) : Type 0 where
  pub status : ℕ
  pub headers : HashMap Text
  pub body : B

unfoldable pub make_error_response : ℕ → Text → Text → Response OpenAiError
make_error_response status error_type message = record {
  status = status;
  headers = empty;
  body = record { message = message; error_type = error_type };
}

module _ (is_header : Text → Text → Bool) where
  unfoldable pub apply_header : HashMap Text → Text → Text → HashMap Text
  apply_header headers name value =
      if is_header name value then insert headers name value else headers

  unfoldable pub apply_headers : HashMap Text → List (Text × Text) → HashMap Text
  unfolding apply_header
  apply_headers headers [] = headers
  apply_headers headers ((name, value) ∷ pairs) =
      apply_headers (apply_header headers name value) pairs

  -- `AppError::into_response`
  unfoldable pub into_response : AppError → Response OpenAiError
  unfolding make_error_response apply_headers
  into_response (bad_request message) =
      make_error_response 400 (lit "invalid_request_error") message
  into_response (unauthorized message) =
      make_error_response 401 (lit "authentication_error") message
  into_response (rate_limited message headers) =
      record (make_error_response 429 (lit "rate_limit_error") message) {
        headers = apply_headers empty headers;
      }
  into_response (backend message) = make_error_response 502 (lit "backend_error") message
  into_response (internal message) = make_error_response 500 (lit "server_error") message
