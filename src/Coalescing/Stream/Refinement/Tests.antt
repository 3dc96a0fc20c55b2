-- ===== src/Coalescing/Stream/Refinement/Tests.antt =====
-- Calls of src/coalescing.rs that do not overlap: two callers of one key, one of another, and the last
-- item of the first key.
use rust_llm_inference_gatew.Prelude.{false, List, [], ◌∷◌, err}
use rust_llm_inference_gatew.Text.{lit}
use rust_llm_inference_gatew.HashMap.{empty}
use rust_llm_inference_gatew.Coalescing.Stream.{Channels}
use rust_llm_inference_gatew.Coalescing.Stream.Refinement.{streams}
use rust_llm_inference_gatew.Coalescing.Stream.Refinement.Sequence.{
  Call, joins, publishes, hangs_up, run_shared, run_streams, SameRun, nothing_shared,
  run_shared-refines,
}

abbrev no_channels : Channels
no_channels = record { next = 0; sent = λ rx. []; alive = λ rx. false }

abbrev calls : List Call
calls =
    joins (lit "k")
    ∷ joins (lit "k")
    ∷ joins (lit "j")
    ∷ hangs_up 0
    ∷ publishes (lit "k") (err (lit "down"))
    ∷ joins (lit "k")
    ∷ []

run_shared-refines_example :
    SameRun
      (run_shared (nothing_shared no_channels) calls)
      (run_streams (streams empty no_channels) calls)
run_shared-refines_example = run_shared-refines no_channels calls
