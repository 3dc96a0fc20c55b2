-- ===== src/Mock/Tests.antt =====
-- The mock of src/backend/mock.rs on a request of one message.
use rust_llm_inference_gatew.Prelude.{ℕ, ◌≡◌, refl, false, none, [], ◌∷◌}
use rust_llm_inference_gatew.Text.{split_whitespace, is_empty, is_whitespace}
use rust_llm_inference_gatew.Models.{user, NormalizedChatRequest}
use rust_llm_inference_gatew.Mock.{split_for_stream}

abbrev request : NormalizedChatRequest ℕ
request = record {
  request_id = [];
  user_id = [];
  model = 109 ∷ [];
  messages = record { role = user; content = 104 ∷ 105 ∷ [] } ∷ [];
  generation = record { max_tokens = none; temperature = none; top_p = none };
  stream = false;
}

-- "a  b"
tokens_of_text : split_for_stream (97 ∷ 32 ∷ 32 ∷ 98 ∷ []) ≡ (97 ∷ 32 ∷ []) ∷ (98 ∷ []) ∷ []
unfolding split_for_stream split_whitespace is_empty is_whitespace
tokens_of_text = refl
