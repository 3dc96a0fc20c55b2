-- ===== src/Coalescing/Stream/Fanout/Tests.antt =====
-- A run of one stream of src/coalescing.rs: two receivers join early, one of them leaves, one joins
-- late.
use rust_llm_inference_gatew.Prelude.{false, true, none, some, List, [], ◌∷◌, ok, ◌≡◌, refl}
use rust_llm_inference_gatew.Coalescing.Stream.{
  StreamItem, Channels, subscribe, publish, hang_up, is_terminal_item,
}
use rust_llm_inference_gatew.Coalescing.Stream.Fanout.{
  Event, joins, publishes, hangs_up, run, step, fresh,
}

abbrev no_channels : Channels
no_channels = record { next = 0; sent = λ rx. []; alive = λ rx. false }

abbrev hello : StreamItem
hello = ok (record { delta = some (104 ∷ []); finish_reason = none; usage = none; done = false })

abbrev stop : StreamItem
stop = ok (record { delta = none; finish_reason = some (115 ∷ []); usage = none; done = true })

abbrev events : List Event
events =
    joins ∷ joins ∷ publishes hello ∷ hangs_up 0 ∷ joins ∷ publishes stop ∷ publishes hello ∷ []

late_receiver : (run (fresh no_channels) events).channels.sent 2 ≡ hello ∷ stop ∷ []
unfolding run step subscribe publish hang_up is_terminal_item
late_receiver = refl
