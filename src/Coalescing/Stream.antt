-- ===== src/Coalescing/Stream.antt =====
-- The streaming half of src/coalescing.rs. An `mpsc` channel is a number: what was sent on it, and
-- whether its receiver is still there, are in `Channels`. Each call is one step here; in the source it
-- takes the lock of the map and then that of the entry, and Stream/Shared cuts it at these locks.
pub mod Fanout
mod Retain
mod Receivers
pub mod Shared
pub mod Interleaved
pub mod Refinement
use rust_llm_inference_gatew.Prelude.{
  update, ℕ, suc, Bool, true, false, Option, none, some, List, [], ◌∷◌, ◌++◌, Result, ok, err, ◌==◌,
  if◌then◌else◌,
}
use rust_llm_inference_gatew.Text.{Text}
use rust_llm_inference_gatew.HashMap.{HashMap, get, insert, remove}
use rust_llm_inference_gatew.Models.{BackendChunk}

abbrev pub StreamItem : Type 0
StreamItem = Result BackendChunk Text

pub is_terminal_item : StreamItem → Bool
is_terminal_item (ok chunk) = chunk.done
is_terminal_item (err message) = true

pub record StreamEntry : Type 0 where
  pub history : List StreamItem
  pub subscribers : List ℕ
  pub done : Bool

-- `StreamEntry::default()`
abbrev pub new_entry : StreamEntry
new_entry = record { history = []; subscribers = []; done = false }

-- Channels are numbered in the order in which they are made.
pub record Channels : Type 0 where
  pub next : ℕ
  pub sent : ℕ → List StreamItem
  pub alive : ℕ → Bool

-- `mpsc::unbounded_channel()`, and the replay of the history, whose sends succeed while the new
-- receiver is held.
open_channel : Channels → List StreamItem → Channels
open_channel c history = record {
  next = suc c.next;
  sent = update c.sent c.next history;
  alive = update c.alive c.next true;
}

-- The second half of `join_or_create_stream`, on the entry.
pub subscribe : StreamEntry → Channels → StreamEntry × Channels
unfolding open_channel
subscribe e c = (
  if e.done then e else record e { subscribers = e.subscribers ++ c.next ∷ [] },
  open_channel c e.history,
)

-- `subscribers.retain(|s| s.send(item).is_ok())`: a send fails if the receiver is gone.
pub retain : StreamItem → List ℕ → Channels → List ℕ × Channels
retain item [] c = ([], c)
retain item (s ∷ ss) c =
    let (kept, after) =
      retain item ss
        (if c.alive s then record c { sent = update c.sent s (c.sent s ++ item ∷ []) } else c) in
    (if c.alive s then s ∷ kept else kept, after)

-- The body of `publish_stream_item`, on the entry.
pub publish : StreamItem → StreamEntry → Channels → StreamEntry × Channels
unfolding retain
publish item e c =
    let (kept, after) = retain item e.subscribers c in
    if e.done then (e, c) else (
      record {
        history = e.history ++ item ∷ [];
        subscribers = if is_terminal_item item then [] else kept;
        done = is_terminal_item item;
      },
      after,
    )

-- A receiver goes away.
pub hang_up : ℕ → Channels → Channels
hang_up rx c = record c { alive = update c.alive rx false }

pub record Streams : Type 0 where
  pub stream_inflight : HashMap StreamEntry
  pub channels : Channels

entry_or_new : Option StreamEntry → StreamEntry × Bool
entry_or_new (some e) = (e, false)
entry_or_new none = (new_entry, true)

-- The new state, the channel of the caller, and whether it leads.
pub join_or_create_stream : Streams → Text → Streams × ℕ × Bool
unfolding entry_or_new subscribe
join_or_create_stream s key =
    let (e, is_leader) = entry_or_new (get s.stream_inflight key) in
    let (e', channels) = subscribe e s.channels in
    (
      record { stream_inflight = insert s.stream_inflight key e'; channels = channels },
      s.channels.next,
      is_leader,
    )

publish_entry : Streams → Text → StreamItem → Option StreamEntry → Streams
unfolding publish
publish_entry s key item none = s
publish_entry s key item (some e) =
    let (e', channels) = publish item e s.channels in
    if e.done then s else record {
      stream_inflight =
          if e'.done then remove s.stream_inflight key else insert s.stream_inflight key e';
      channels = channels;
    }

pub publish_stream_item : Streams → Text → StreamItem → Streams
unfolding publish_entry
publish_stream_item s key item = publish_entry s key item (get s.stream_inflight key)
