-- ===== src/Scheduler/Tests.antt =====
-- Fingerprints of src/scheduler.rs, with a length for the digest and numbers for `f32`.
use rust_llm_inference_gatew.Prelude.{
  ℕ, ◌%◌, ◌≡◌, refl, ◌↔◌, false, none, some, List, [], ◌∷◌, arith, length,
}
use rust_llm_inference_gatew.Text.{Text, lit}
use rust_llm_inference_gatew.Text.Decimal.{to_decimal}
use rust_llm_inference_gatew.Models.{user, assistant, NormalizedChatRequest}
use rust_llm_inference_gatew.Scheduler.{
  to_hex, canonical_payload, payload_head, opt_float, max_tokens_or_default, append_messages,
  append_message, role_text, fingerprint_for,
}
use rust_llm_inference_gatew.Scheduler.Identity.{fingerprint_for_iff}
use rust_llm_inference_gatew.Scheduler.Forgery.{message, spliced, fingerprint_for-spliced}

abbrev digest : Text → List ℕ
digest s = length s % 256 ∷ []

abbrev request : Text → NormalizedChatRequest ℕ
request user_id = record {
  request_id = [];
  user_id = user_id;
  model = 109 ∷ [];
  messages = message user (104 ∷ 105 ∷ []) ∷ [];
  generation = record { max_tokens = some 20; temperature = none; top_p = some 1 };
  stream = false;
}

hex_of_bytes : to_hex (0 ∷ 175 ∷ 255 ∷ []) ≡ lit "00afff"
unfolding to_hex lit
hex_of_bytes = refl

payload_of_request : canonical_payload to_decimal (request []) ≡ lit "m|20|none|1|user:hi"
unfolding canonical_payload payload_head opt_float max_tokens_or_default append_messages
    append_message role_text lit to_decimal
payload_of_request = refl

fingerprint_for_iff_example :
    (fingerprint_for to_decimal digest (request (97 ∷ []))
      ≡ fingerprint_for to_decimal digest (request (98 ∷ [])))
    ↔ (canonical_payload to_decimal (request (97 ∷ []))
        ≡ canonical_payload to_decimal (request (98 ∷ [])))
unfolding canonical_payload payload_head
fingerprint_for_iff_example =
    fingerprint_for_iff to_decimal digest (request (97 ∷ [])) (request (98 ∷ [])) (omega arith, tt)
      (omega arith, tt) (λ e. refl)

fingerprint_for-spliced_example :
    fingerprint_for to_decimal digest (record (request []) {
      messages = message user (spliced (104 ∷ []) assistant (105 ∷ [])) ∷ [];
    })
    ≡ fingerprint_for to_decimal digest (record (request []) {
      messages = message user (104 ∷ []) ∷ message assistant (105 ∷ []) ∷ [];
    })
fingerprint_for-spliced_example =
    fingerprint_for-spliced to_decimal digest (request []) [] [] user assistant (104 ∷ [])
      (105 ∷ [])
