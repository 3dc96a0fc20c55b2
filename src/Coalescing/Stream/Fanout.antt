-- ===== src/Coalescing/Stream/Fanout.antt =====
-- What the receivers of one stream of src/coalescing.rs see.
pub mod Invariant
mod Tests
use rust_llm_inference_gatew.Prelude.{
  ℕ, Bool, true, false, List, [], ◌∷◌, ◌++◌, ◌≡◌, ◌<◌, refl, arith, if◌then◌else◌, Bool-cases, inl,
  inr, ◌||◌, append-nil, append_assoc, sym, ◌∙◌, ap,
}
use rust_llm_inference_gatew.Coalescing.Stream.{
  StreamItem, StreamEntry, Channels, new_entry, is_terminal_item, subscribe, publish, retain,
  hang_up,
}

-- A stream and its channels.
pub record Fanout : Type 0 where
  pub entry : StreamEntry
  pub channels : Channels

pub data Event : Type 0 where
  joins : Event
  publishes : StreamItem → Event
  hangs_up : ℕ → Event

pub step : Fanout → Event → Fanout
step f joins = let (e, c) = subscribe f.entry f.channels in record { entry = e; channels = c }
step f (publishes item) =
    let (e, c) = publish item f.entry f.channels in record { entry = e; channels = c }
step f (hangs_up rx) = record f { channels = hang_up rx f.channels }

pub run : Fanout → List Event → Fanout
run f [] = f
run f (v ∷ vs) = run (step f v) vs

-- A stream that nobody has joined, beside the channels of others.
abbrev pub fresh : Channels → Fanout
fresh c = record { entry = new_entry; channels = c }

-- What the leader publishes, in order.
abbrev pub published : List Event → List StreamItem
published [] = []
published (publishes item ∷ vs) = item ∷ published vs
published (joins ∷ vs) = published vs
published (hangs_up rx ∷ vs) = published vs

-- The items up to the first terminal one, which is included.
pub up_to_terminal : List StreamItem → List StreamItem
up_to_terminal [] = []
up_to_terminal (x ∷ xs) =
    let rest = up_to_terminal xs in if is_terminal_item x then x ∷ [] else x ∷ rest

history-run :
    (f : Fanout) (vs : List Event)
    → (run f vs).entry.history
      ≡ (if f.entry.done then f.entry.history else f.entry.history ++ up_to_terminal (published vs))
unfolding run step up_to_terminal publish subscribe
history-run f [] = ground (arith, append-nil f.entry.history)
history-run f (joins ∷ vs) = ground (arith, history-run (step f joins) vs)
history-run f (hangs_up rx ∷ vs) = ground (arith, history-run (step f (hangs_up rx)) vs)
history-run f (publishes item ∷ vs) = ground (
  arith,
  history-run (step f (publishes item)) vs,
  append_assoc f.entry.history (item ∷ []) (up_to_terminal (published vs)),
)
