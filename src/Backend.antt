-- ===== src/Backend.antt =====
-- src/backend/mod.rs: what every backend offers, and its errors.
use rust_llm_inference_gatew.Prelude.{◌++◌}
use rust_llm_inference_gatew.Text.{Text, lit}

pub data BackendError : Type 0 where
  unavailable timeout invalid_response : Text → BackendError

-- `Display` of `BackendError`
unfoldable pub error_text : BackendError → Text
error_text (unavailable s) = lit "backend unavailable: " ++ s
error_text (timeout s) = lit "backend timeout: " ++ s
error_text (invalid_response s) = lit "backend invalid response: " ++ s
