-- ===== src/Coalescing/Stream/Fanout/Invariant.antt =====
-- A run of one stream of src/coalescing.rs keeps its receivers complete.
use rust_llm_inference_gatew.Prelude.{ℕ, true, List, [], ◌∷◌, ◌≡◌, ◌≤◌, ◌<◌, ◌∙◌, arith}
use rust_llm_inference_gatew.Coalescing.Stream.{Channels, new_entry}
use rust_llm_inference_gatew.Coalescing.Stream.Fanout.{
  Fanout, Event, joins, publishes, hangs_up, step, run, fresh, published, up_to_terminal,
  history-run,
}
use rust_llm_inference_gatew.Coalescing.Stream.Receivers.{
  Inv, subscribe-Inv, hang_up-Inv, publish-Inv,
}

run-Inv :
    (base : ℕ) (f : Fanout) (vs : List Event)
    → Inv (λ rx. base ≤ rx) f.entry f.channels
    → Inv (λ rx. base ≤ rx) (run f vs).entry (run f vs).channels
unfolding run step
run-Inv base f [] v = v
run-Inv base f (joins ∷ vs) v =
    run-Inv base (step f joins) vs (subscribe-Inv (λ rx. base ≤ rx) f.entry f.channels v)
run-Inv base f (publishes item ∷ vs) v =
    run-Inv base (step f (publishes item)) vs
      (publish-Inv (λ rx. base ≤ rx) f.entry f.channels v item)
run-Inv base f (hangs_up rx ∷ vs) v =
    run-Inv base (step f (hangs_up rx)) vs (hang_up-Inv (λ rx. base ≤ rx) f.entry f.channels v rx)

fresh-Inv : (c : Channels) → Inv (λ rx. c.next ≤ rx) new_entry c
fresh-Inv c = record {
  below = λ rx h. absurd h;
  distinct = tt;
  received = λ rx le lt a. absurd (omega arith);
  listed = λ rx le lt a on. absurd (omega arith);
}

-- Whenever a receiver joined a stream, early or late, and whatever other receivers did, if it is
-- still there it has been sent exactly what the leader published, from the first item up to the
-- first terminal one.
pub run-receives_all :
    (c : Channels) (vs : List Event) (rx : ℕ)
    → c.next ≤ rx
    → rx < (run (fresh c) vs).channels.next
    → (run (fresh c) vs).channels.alive rx ≡ true
    → (run (fresh c) vs).channels.sent rx ≡ up_to_terminal (published vs)
run-receives_all c vs rx le lt a =
    (run-Inv c.next (fresh c) vs (fresh-Inv c)).received rx le lt a ∙ history-run (fresh c) vs
