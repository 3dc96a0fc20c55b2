-- ===== src/Scheduler/Forgery.antt =====
-- Different conversations with one fingerprint in src/scheduler.rs.
use rust_llm_inference_gatew.Prelude.{ℕ, ◌≡◌, refl, ap, sym, ◌∙◌, List, [], ◌∷◌, ◌++◌, append_assoc}
use rust_llm_inference_gatew.Text.{Text}
use rust_llm_inference_gatew.Models.{MessageRole, NormalizedMessage, NormalizedChatRequest}
use rust_llm_inference_gatew.Scheduler.{
  role_text, append_message, append_messages, canonical_payload, fingerprint_for, to_hex,
}

abbrev pub message : MessageRole → Text → NormalizedMessage
message role content = record { role = role; content = content }

-- A content that spells out the next message.
abbrev pub spliced : Text → MessageRole → Text → Text
spliced a role b = a ++ (124 ∷ role_text role ++ (58 ∷ b))

append_message-spliced :
    (buffer a b : Text) (role next : MessageRole)
    → append_message buffer (message role (spliced a next b))
      ≡ append_message (append_message buffer (message role a)) (message next b)
unfolding append_message
append_message-spliced buffer a b role next =
    ap (λ (x : Text). buffer ++ (124 ∷ x)) (sym (append_assoc (role_text role) (58 ∷ a) _))
    ∙ sym (append_assoc buffer (124 ∷ role_text role ++ (58 ∷ a)) _)

append_messages-append :
    (buffer : Text) (xs ys : List NormalizedMessage)
    → append_messages buffer (xs ++ ys) ≡ append_messages (append_messages buffer xs) ys
unfolding append_messages
append_messages-append buffer [] ys = refl
append_messages-append buffer (x ∷ xs) ys = append_messages-append (append_message buffer x) xs ys

append_messages-spliced :
    (buffer : Text) (before after : List NormalizedMessage) (role next : MessageRole) (a b : Text)
    → append_messages buffer (before ++ (message role (spliced a next b) ∷ after))
      ≡ append_messages buffer (before ++ (message role a ∷ message next b ∷ after))
unfolding append_messages
append_messages-spliced buffer before after role next a b =
    append_messages-append buffer before (message role (spliced a next b) ∷ after)
    ∙ ap (λ x. append_messages x after)
        (append_message-spliced (append_messages buffer before) a b role next)
    ∙ sym (append_messages-append buffer before (message role a ∷ message next b ∷ after))

-- Whatever the digest, a request that has two messages in a row has the fingerprint of the request
-- that has one message in their place, whose content is the first one's, `|`, the second one's role,
-- `:` and the second one's content.
pub fingerprint_for-spliced :
    {F : Type 0} (format4 : F → Text) (digest : Text → List ℕ) (request : NormalizedChatRequest F)
    (before after : List NormalizedMessage) (role next : MessageRole) (a b : Text)
    → fingerprint_for format4 digest
        (record request { messages = before ++ (message role (spliced a next b) ∷ after) })
      ≡ fingerprint_for format4 digest
          (record request { messages = before ++ (message role a ∷ message next b ∷ after) })
unfolding fingerprint_for canonical_payload
fingerprint_for-spliced format4 digest request before after role next a b =
    ap (λ payload. to_hex (digest payload)) (append_messages-spliced _ before after role next a b)
