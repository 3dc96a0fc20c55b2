-- ===== src/Coalescing/Stream/Interleaved/Promises.antt =====
-- What the streams of src/coalescing.rs promise to their callers under any interleaving.
use rust_llm_inference_gatew.Prelude.{ℕ, true, some, ◌≡◌, ◌<◌, ◌↔◌, refl, subst, ◌∙◌}
use rust_llm_inference_gatew.Text.{Text}
use rust_llm_inference_gatew.HashMap.{get}
use rust_llm_inference_gatew.Coalescing.Stream.Interleaved.{System, Reach, initial}
use rust_llm_inference_gatew.Coalescing.Stream.Interleaved.Locks.{is_active}
use rust_llm_inference_gatew.Coalescing.Stream.Interleaved.Soundness.{
  Reach-IsSound, initial-IsSound,
}

-- However callers and leaders interleave between the locks, a receiver that is still there has been
-- sent exactly what the leader of the entry that its caller had found has published, from the first
-- item on, whenever it subscribed.
pub Reach-delivers :
    {s : System} (rx : ℕ)
    → Reach initial s
    → rx < s.shared.channels.next
    → s.shared.channels.alive rx ≡ true
    → s.shared.channels.sent rx ≡ s.published (s.source rx)
Reach-delivers {s} rx r lt a =
    let v = Reach-IsSound initial-IsSound r in
    let made = v.delivery.sources rx lt in
    (v.delivery.receivers (s.source rx) made).received rx refl lt a
    ∙ (v.logs (s.source rx) made).history

-- However callers and leaders interleave, a key leads to an entry exactly as long as the leader of
-- that entry has to publish or to remove it; so two leaders never share a key, and a key is free
-- once its leader has returned from the publication of a terminal item.
pub get-stream_inflight_iff :
    {s : System} (k : Text) (id : ℕ)
    → Reach initial s
    → (get s.shared.stream_inflight k ≡ some id)
      ↔ ((id < s.shared.next_entry) × (s.key id ≡ k) × (is_active (s.phase id) ≡ true))
get-stream_inflight_iff {s} k id r =
    let v = (Reach-IsSound initial-IsSound r).locks in
    (
      v.registered k id,
      λ h. subst (λ j. get s.shared.stream_inflight j ≡ some id) h.1 (v.held id h.0 h.2),
    )
