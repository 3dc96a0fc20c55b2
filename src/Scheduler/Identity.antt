-- ===== src/Scheduler/Identity.antt =====
-- When two requests have one fingerprint in src/scheduler.rs.
use rust_llm_inference_gatew.Prelude.{ℕ, ◌≡◌, ◌↔◌, ap, List, All}
use rust_llm_inference_gatew.Text.{Text}
use rust_llm_inference_gatew.Models.{NormalizedChatRequest}
use rust_llm_inference_gatew.Scheduler.{to_hex, canonical_payload, fingerprint_for}
use rust_llm_inference_gatew.Scheduler.Hex.{IsByte, to_hex_injective}

-- Two requests whose canonical payloads do not collide under the digest have one fingerprint exactly
-- when they have one canonical payload: the hexadecimal text loses nothing of the digest.
pub fingerprint_for_iff :
    {F : Type 0} (format4 : F → Text) (digest : Text → List ℕ) (r s : NormalizedChatRequest F)
    → All IsByte (digest (canonical_payload format4 r))
    → All IsByte (digest (canonical_payload format4 s))
    → (digest (canonical_payload format4 r) ≡ digest (canonical_payload format4 s)
        → canonical_payload format4 r ≡ canonical_payload format4 s)
    → (fingerprint_for format4 digest r ≡ fingerprint_for format4 digest s)
      ↔ (canonical_payload format4 r ≡ canonical_payload format4 s)
unfolding fingerprint_for
fingerprint_for_iff format4 digest r s v w no_collision =
    (λ e. no_collision (to_hex_injective _ _ v w e), λ e. ap (λ payload. to_hex (digest payload)) e)
