-- ===== src/Models.antt =====
-- src/models.rs: the ingress request, the internal request, and what a backend returns.
-- `F` stands for `f32`, whose values the gateway stores and formats and never computes with. The
-- JSON form of these types is serde's.
use rust_llm_inference_gatew.Prelude.{
  ℕ, Bool, List, [], ◌∷◌, ◌++◌, Option, none, some, map, Result, ok, err, saturating_add_u32,
  if◌then◌else◌,
}
use rust_llm_inference_gatew.Text.{Text, lit, trim, is_empty}

pub data MessageRole : Type 0 where
  system user assistant tool : MessageRole

pub record OpenAiMessage : Type 0 where
  pub role : MessageRole
  pub content : Text

pub record NormalizedMessage : Type 0 where
  pub role : MessageRole
  pub content : Text

pub record Usage : Type 0 where
  pub prompt_tokens : ℕ
  pub completion_tokens : ℕ
  pub total_tokens : ℕ

-- `Usage::new`
unfoldable pub new_usage : ℕ → ℕ → Usage
new_usage prompt_tokens completion_tokens = record {
  prompt_tokens = prompt_tokens;
  completion_tokens = completion_tokens;
  total_tokens = saturating_add_u32 prompt_tokens completion_tokens;
}

pub record BackendChatResponse : Type 0 where
  pub content : Text
  pub finish_reason : Text
  pub usage : Usage

pub record BackendChunk : Type 0 where
  pub delta : Option Text
  pub finish_reason : Option Text
  pub usage : Option Usage
  pub done : Bool

pub record GenerationParams (F : Type 0) : Type 0 where
  pub max_tokens : Option ℕ
  pub temperature : Option F
  pub top_p : Option F

pub record ChatCompletionsRequest (F : Type 0) : Type 0 where
  pub model : Text
  pub messages : List OpenAiMessage
  pub max_tokens : Option ℕ
  pub temperature : Option F
  pub top_p : Option F
  pub stream : Bool
  pub user : Option Text

pub record NormalizedChatRequest (F : Type 0) : Type 0 where
  pub request_id : Text
  pub user_id : Text
  pub model : Text
  pub messages : List NormalizedMessage
  pub generation : GenerationParams F
  pub stream : Bool

normalize_message : OpenAiMessage → NormalizedMessage
normalize_message m = record { role = m.role; content = m.content }

has_messages : List OpenAiMessage → Bool
has_messages [] = Bool.false
has_messages (m ∷ ms) = Bool.true

module _ {F : Type 0} where
  -- The second argument is the fresh UUID that the source draws.
  unfoldable pub into_normalized :
      ChatCompletionsRequest F → Text → Text → Result (NormalizedChatRequest F) Text
  unfolding normalize_message has_messages
  into_normalized r uuid user_id =
      if is_empty (trim r.model)
      then err (lit "model is required")
      else if has_messages r.messages
      then ok (record {
        request_id = lit "req_" ++ uuid;
        user_id = user_id;
        model = r.model;
        messages = map normalize_message r.messages;
        generation = record {
          max_tokens = r.max_tokens;
          temperature = r.temperature;
          top_p = r.top_p;
        };
        stream = r.stream;
      })
      else err (lit "messages must not be empty")

pub record AssistantMessage : Type 0 where
  pub role : Text
  pub content : Text

pub record ChatChoice : Type 0 where
  pub index : ℕ
  pub message : AssistantMessage
  pub finish_reason : Text

pub record ChatCompletionsResponse : Type 0 where
  pub id : Text
  pub object : Text
  pub created : ℕ
  pub model : Text
  pub choices : List ChatChoice
  pub usage : Usage

unfoldable pub from_backend : Text → ℕ → Text → BackendChatResponse → ChatCompletionsResponse
from_backend id created model backend = record {
  id = id;
  object = lit "chat.completion";
  created = created;
  model = model;
  choices =
      record {
        index = 0;
        message = record { role = lit "assistant"; content = backend.content };
        finish_reason = backend.finish_reason;
      }
      ∷ [];
  usage = backend.usage;
}

pub record DeltaMessage : Type 0 where
  pub role : Option Text
  pub content : Option Text

pub record ChunkChoice : Type 0 where
  pub index : ℕ
  pub delta : DeltaMessage
  pub finish_reason : Option Text

pub record ChatCompletionsChunk : Type 0 where
  pub id : Text
  pub object : Text
  pub created : ℕ
  pub model : Text
  pub choices : List ChunkChoice

one_choice : Text → ℕ → Text → ChunkChoice → ChatCompletionsChunk
one_choice id created model choice = record {
  id = id;
  object = lit "chat.completion.chunk";
  created = created;
  model = model;
  choices = choice ∷ [];
}

-- `ChatCompletionsChunk::role`
unfoldable pub role_chunk : Text → ℕ → Text → ChatCompletionsChunk
unfolding one_choice
role_chunk id created model = one_choice id created model (record {
  index = 0;
  delta = record { role = some (lit "assistant"); content = none };
  finish_reason = none;
})

-- `ChatCompletionsChunk::delta`
unfoldable pub delta_chunk : Text → ℕ → Text → Text → ChatCompletionsChunk
unfolding one_choice
delta_chunk id created model content = one_choice id created model (record {
  index = 0;
  delta = record { role = none; content = some content };
  finish_reason = none;
})

-- `ChatCompletionsChunk::finish`
unfoldable pub finish_chunk : Text → ℕ → Text → Text → ChatCompletionsChunk
unfolding one_choice
finish_chunk id created model finish_reason = one_choice id created model (record {
  index = 0;
  delta = record { role = none; content = none };
  finish_reason = some finish_reason;
})
