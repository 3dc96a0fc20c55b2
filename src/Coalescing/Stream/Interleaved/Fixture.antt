-- ===== src/Coalescing/Stream/Interleaved/Fixture.antt =====
-- A run of the streams of src/coalescing.rs: a follower finds an entry before its last item and
-- subscribes after the entry has left the map.
use rust_llm_inference_gatew.Prelude.{true, some, [], ◌∷◌, ok, ◌≡◌, ◌<◌, refl, arith}
use rust_llm_inference_gatew.Text.{Text, lit, text_eq}
use rust_llm_inference_gatew.HashMap.{get, insert, remove}
use rust_llm_inference_gatew.Models.{BackendChunk}
use rust_llm_inference_gatew.Coalescing.Stream.{StreamItem, subscribe, publish, is_terminal_item}
use rust_llm_inference_gatew.Coalescing.Stream.Shared.{
  look_up, attach, find_entry, push_item, remove_entry,
}
use rust_llm_inference_gatew.Coalescing.Stream.Interleaved.{
  System, Reach, initial, calls, subscribes, waits, finds, looked, pushes, removes, call, follow,
  lead, find, push, clear, start, later,
}

abbrev pub key : Text
key = lit "k"

abbrev pub last_chunk : BackendChunk
last_chunk = record {
  delta = some (104 ∷ []);
  finish_reason = some (115 ∷ []);
  usage = some (record { prompt_tokens = 2; completion_tokens = 3; total_tokens = 5 });
  done = true;
}

abbrev pub last_item : StreamItem
last_item = ok last_chunk

-- The leader has made entry 0, and a second caller has found it.
abbrev pub found_twice : System
found_twice = calls (calls initial key) key

abbrev led : System
led = waits (subscribes found_twice 0) 0

-- The leader has published its last item and removed the key; then the follower subscribes.
abbrev ended : System
ended = removes (pushes (finds led 0 last_item) 0 last_item 0) 0

abbrev pub late : System
late = subscribes ended 0

pub found_twice-Reach : Reach initial found_twice
found_twice-Reach = later (later start (call key)) (call key)

ended-Reach : Reach initial ended
unfolding calls look_up subscribes attach subscribe waits finds looked find_entry pushes push_item
    publish is_terminal_item get insert remove text_eq lit
ended-Reach =
    later
      (later
        (later (later found_twice-Reach (lead 0 (omega arith) refl))
          (find 0 last_item (omega arith) refl))
        (push 0 last_item 0 (omega arith) refl))
      (clear 0 (omega arith) refl)

pub late-Reach : Reach initial late
unfolding calls look_up subscribes attach subscribe waits finds looked find_entry pushes push_item
    publish is_terminal_item removes remove_entry get insert remove text_eq lit
late-Reach = later ended-Reach (follow 0 (omega arith))

-- The follower's channel is there, and its entry's leader has published the last item alone.
pub late_follower :
    (1 < late.shared.channels.next)
    × (late.shared.channels.alive 1 ≡ true)
    × (late.published (late.source 1) ≡ last_item ∷ [])
unfolding calls look_up subscribes attach subscribe waits finds looked find_entry pushes push_item
    publish is_terminal_item removes remove_entry get insert remove text_eq lit
late_follower = (omega arith, refl, refl)
