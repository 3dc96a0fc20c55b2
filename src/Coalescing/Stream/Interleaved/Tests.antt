-- ===== src/Coalescing/Stream/Interleaved/Tests.antt =====
-- What a late follower of src/coalescing.rs sees.
use rust_llm_inference_gatew.Prelude.{ℕ, true, false, some, [], ◌∷◌, ◌≡◌, ◌↔◌, ◌<◌, refl, arith}
use rust_llm_inference_gatew.Text.{lit, text_eq}
use rust_llm_inference_gatew.HashMap.{get, insert, remove}
use rust_llm_inference_gatew.Coalescing.Stream.{subscribe, publish, is_terminal_item}
use rust_llm_inference_gatew.Coalescing.Stream.Shared.{
  look_up, attach, find_entry, push_item, remove_entry,
}
use rust_llm_inference_gatew.Coalescing.Stream.Interleaved.{
  System, calls, subscribes, waits, finds, looked, pushes, removes, follow, later,
}
use rust_llm_inference_gatew.Coalescing.Stream.Interleaved.Locks.{is_active}
use rust_llm_inference_gatew.Coalescing.Stream.Interleaved.Promises.{
  Reach-delivers, get-stream_inflight_iff,
}
use rust_llm_inference_gatew.Coalescing.Stream.Interleaved.Leaderless.{look_up-joining}
use rust_llm_inference_gatew.Coalescing.Stream.Interleaved.Fixture.{
  key, last_item, found_twice, late, found_twice-Reach, late-Reach,
}

late_subscriber : late.shared.channels.sent 1 ≡ last_item ∷ []
unfolding calls look_up subscribes attach subscribe waits finds looked find_entry pushes push_item
    publish is_terminal_item removes remove_entry get insert remove text_eq lit
late_subscriber = refl

-- The key is free again.
leads_again : (look_up late.shared key).2 ≡ true
unfolding calls look_up subscribes attach subscribe waits finds looked find_entry pushes push_item
    publish is_terminal_item removes remove_entry get insert remove text_eq lit
leads_again = refl

Reach-delivers_example : late.shared.channels.sent 1 ≡ late.published (late.source 1)
unfolding calls look_up subscribes attach subscribe waits finds looked find_entry pushes push_item
    publish is_terminal_item removes remove_entry get insert remove text_eq lit
Reach-delivers_example = Reach-delivers 1 late-Reach (omega arith) refl

get-stream_inflight_iff_example : (get found_twice.shared.stream_inflight key ≡ some 0) ↔ (
    (0 < found_twice.shared.next_entry)
    × (found_twice.key 0 ≡ key)
    × (is_active (found_twice.phase 0) ≡ true))
get-stream_inflight_iff_example = get-stream_inflight_iff key 0 found_twice-Reach

-- The follower subscribes, and the caller that made the entry never does.
abbrev orphaned : System
orphaned = subscribes found_twice 0

look_up-joining_example :
    (look_up orphaned.shared (orphaned.key 0) ≡ (orphaned.shared, 0, false))
    × ((rx : ℕ)
        → rx < orphaned.shared.channels.next
        → orphaned.shared.channels.alive rx ≡ true
        → orphaned.source rx ≡ 0
        → orphaned.shared.channels.sent rx ≡ [])
unfolding calls look_up subscribes attach subscribe get insert remove text_eq lit
look_up-joining_example =
    look_up-joining 0 (later found_twice-Reach (follow 0 (omega arith))) (omega arith) refl
