-- ===== src/Handlers/Streaming/Begin.antt =====
-- The start of `stream_completion` of src/handlers.rs: the caller joins or leads a stream, and its
-- response has the headers of the limiter.
use rust_llm_inference_gatew.Prelude.{ℕ, Bool}
use rust_llm_inference_gatew.Text.{Text}
use rust_llm_inference_gatew.HashMap.{HashMap, empty}
use rust_llm_inference_gatew.Limits.Snapshot.{to_header_pairs}
use rust_llm_inference_gatew.Errors.{apply_headers}
use rust_llm_inference_gatew.Coalescing.Stream.{Streams, join_or_create_stream}
use rust_llm_inference_gatew.Handlers.OneShot.{Accepted}

pub record StreamStart : Type 0 where
  pub channel : ℕ
  pub is_leader : Bool
  pub headers : HashMap Text

pub begin_stream :
    {F : Type 0} → (Text → Text → Bool) → Streams → Accepted F → Streams × StreamStart
begin_stream is_header s a =
    let (after, channel, is_leader) = join_or_create_stream s a.fingerprint in
    (
      after,
      record {
        channel = channel;
        is_leader = is_leader;
        headers = apply_headers is_header empty (to_header_pairs a.rate_snapshot);
      },
    )
