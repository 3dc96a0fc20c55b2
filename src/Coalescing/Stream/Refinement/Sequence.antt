-- ===== src/Coalescing/Stream/Refinement/Sequence.antt =====
-- Sequences of whole calls of src/coalescing.rs.
use rust_llm_inference_gatew.Prelude.{ℕ, Bool, List, [], ◌∷◌, ◌≡◌, refl, sym, ap, subst, ◌∙◌, arith}
use rust_llm_inference_gatew.Text.{Text}
use rust_llm_inference_gatew.HashMap.{HashMap, get, empty, get-empty}
use rust_llm_inference_gatew.Coalescing.Stream.{
  StreamItem, StreamEntry, Channels, Streams, new_entry, hang_up, join_or_create_stream,
  publish_stream_item,
}
use rust_llm_inference_gatew.Coalescing.Stream.Shared.{Shared}
use rust_llm_inference_gatew.Coalescing.Stream.Refinement.{
  join_call, publish_call, entry_of, Represents, streams,
}
use rust_llm_inference_gatew.Coalescing.Stream.Refinement.Calls.{
  join_call-refines, publish_call-refines,
}

pub data Call : Type 0 where
  joins : Text → Call
  publishes : Text → StreamItem → Call
  hangs_up : ℕ → Call

-- The coalescer with its references to entries; the replies are those of `join_or_create_stream`.
pub run_shared : Shared → List Call → Shared × List (ℕ × Bool)
run_shared s [] = (s, [])
run_shared s (joins key ∷ calls) =
    let (s', channel, is_leader) = join_call s key in
    let (after, replies) = run_shared s' calls in (after, (channel, is_leader) ∷ replies)
run_shared s (publishes key item ∷ calls) = run_shared (publish_call s key item) calls
run_shared s (hangs_up rx ∷ calls) =
    run_shared (record s { channels = hang_up rx s.channels }) calls

-- The coalescer as a map of entries.
pub run_streams : Streams → List Call → Streams × List (ℕ × Bool)
run_streams s [] = (s, [])
run_streams s (joins key ∷ calls) =
    let (s', channel, is_leader) = join_or_create_stream s key in
    let (after, replies) = run_streams s' calls in (after, (channel, is_leader) ∷ replies)
run_streams s (publishes key item ∷ calls) = run_streams (publish_stream_item s key item) calls
run_streams s (hangs_up rx ∷ calls) =
    run_streams (record s { channels = hang_up rx s.channels }) calls

abbrev pub SameRun : Shared × List (ℕ × Bool) → Streams × List (ℕ × Bool) → Type 0
SameRun shared whole =
    (shared.1 ≡ whole.1)
    × (shared.0.channels ≡ whole.0.channels)
    × ((key : Text)
        → get whole.0.stream_inflight key
          ≡ entry_of shared.0.entry (get shared.0.stream_inflight key))

same_run :
    (sh : Shared) (m : HashMap StreamEntry) (calls : List Call)
    → Represents sh m
    → SameRun (run_shared sh calls) (run_streams (streams m sh.channels) calls)
unfolding run_shared run_streams
same_run sh m [] v = (refl, refl, v.entries)
same_run sh m (joins key ∷ calls) v =
    let (m', same, v') = join_call-refines sh m v key in
    let (replies, channels, entries) = same_run (join_call sh key).0 m' calls v' in
    rw same (
      ap (λ (l : List (ℕ × Bool)). ((join_call sh key).1, (join_call sh key).2) ∷ l) replies,
      channels,
      entries,
    )
same_run sh m (publishes key item ∷ calls) v =
    let (m', same, v') = publish_call-refines sh m v key item in
    subst (λ s. SameRun (run_shared (publish_call sh key item) calls) (run_streams s calls))
      (sym same) (same_run (publish_call sh key item) m' calls v')
same_run sh m (hangs_up rx ∷ calls) v =
    same_run (record sh { channels = hang_up rx sh.channels }) m calls
      (record { entries = v.entries; made = v.made; apart = v.apart })

abbrev pub nothing_shared : Channels → Shared
nothing_shared c = record {
  stream_inflight = empty;
  next_entry = 0;
  entry = λ id. new_entry;
  channels = c;
}

nothing-Represents : (c : Channels) → Represents (nothing_shared c) empty
nothing-Represents c = record {
  entries = λ k. get-empty k ∙ ap (entry_of (λ id. new_entry)) (sym (get-empty k));
  made = λ k id h. absurd (ground (arith, get-empty {V = ℕ} k));
  apart = λ j k id a b. absurd (ground (arith, get-empty {V = ℕ} j));
}

-- Any sequence of calls that do not overlap gives the same replies, sends the same items on the same
-- channels and leaves the same entries under the same keys, whether the coalescer is a map of shared
-- entries that a call reads and then locks, or a plain map of entries that a call updates at once.
pub run_shared-refines :
    (c : Channels) (calls : List Call)
    → SameRun (run_shared (nothing_shared c) calls) (run_streams (streams empty c) calls)
run_shared-refines c calls = same_run (nothing_shared c) empty calls (nothing-Represents c)
