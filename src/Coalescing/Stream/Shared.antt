-- ===== src/Coalescing/Stream/Shared.antt =====
-- The streaming half of src/coalescing.rs lock by lock: the map holds references to entries, a call
-- drops the lock of the map before it takes that of an entry, and other calls come between. An entry
-- is a number, in the order in which they are made, and its callers hold that number.
use rust_llm_inference_gatew.Prelude.{
  update, ℕ, suc, Bool, true, false, Option, none, some, if◌then◌else◌,
}
use rust_llm_inference_gatew.Text.{Text}
use rust_llm_inference_gatew.HashMap.{HashMap, get, insert, remove}
use rust_llm_inference_gatew.Coalescing.Stream.{
  StreamItem, StreamEntry, Channels, new_entry, subscribe, publish,
}

pub record Shared : Type 0 where
  pub stream_inflight : HashMap ℕ
  pub next_entry : ℕ
  pub entry : ℕ → StreamEntry
  pub channels : Channels

-- `join_or_create_stream` up to the lock of the entry: the caller's entry, and whether it leads.
unfoldable pub look_up_result : Shared → Text → Option ℕ → Shared × ℕ × Bool
look_up_result s key (some id) = (s, id, false)
look_up_result s key none = (
  record s {
    stream_inflight = insert s.stream_inflight key s.next_entry;
    next_entry = suc s.next_entry;
    entry = update s.entry s.next_entry new_entry;
  },
  s.next_entry,
  true,
)

unfoldable pub look_up : Shared → Text → Shared × ℕ × Bool
unfolding look_up_result
look_up s key = look_up_result s key (get s.stream_inflight key)

-- The rest of `join_or_create_stream`, under the lock of the entry: the caller's channel.
unfoldable pub attach : Shared → ℕ → Shared × ℕ
unfolding subscribe
attach s id =
    let (e, c) = subscribe (s.entry id) s.channels in
    (record s { entry = update s.entry id e; channels = c }, s.channels.next)

-- `publish_stream_item` up to the lock of the entry.
unfoldable pub find_entry : Shared → Text → Option ℕ
find_entry s key = get s.stream_inflight key

-- Its middle, under the lock of the entry, and whether it goes on to `should_remove`.
unfoldable pub push_item : Shared → ℕ → StreamItem → Shared × Bool
unfolding publish
push_item s id item =
    let (e, c) = publish item (s.entry id) s.channels in
    (
      record s { entry = update s.entry id e; channels = c },
      if (s.entry id).done then false else e.done,
    )

-- Its end, under the lock of the map again.
unfoldable pub remove_entry : Shared → Text → Shared
remove_entry s key = record s { stream_inflight = remove s.stream_inflight key }
