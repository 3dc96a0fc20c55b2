-- ===== src/Coalescing/OneShot/Leaders/Tests.antt =====
-- Runs of the one-shot half of src/coalescing.rs, and its theorems at concrete inputs.
use rust_llm_inference_gatew.Prelude.{
  ℕ, true, List, [], ◌∷◌, Result, err, ◌≡◌, refl, In, none, arith,
}
use rust_llm_inference_gatew.Text.{Text, text_eq}
use rust_llm_inference_gatew.HashMap.{get, insert}
use rust_llm_inference_gatew.Backend.{BackendError, timeout}
use rust_llm_inference_gatew.Models.{BackendChatResponse}
use rust_llm_inference_gatew.Coalescing.OneShot.{Reply, joined, enter, follower_result}
use rust_llm_inference_gatew.Coalescing.OneShot.Leaders.{
  Event, arrives, answers, drops, leads, idle, step, run,
}
use rust_llm_inference_gatew.Coalescing.OneShot.Leaders.Uniqueness.{IsLed, run-one_leader}
use rust_llm_inference_gatew.Coalescing.OneShot.Leaders.Answered.{run-follower_answered}
use rust_llm_inference_gatew.Coalescing.OneShot.Leaders.Abandoned.{run-dropped_leader}

abbrev key : Text
key = 97 ∷ []

abbrev other_key : Text
other_key = 98 ∷ []

-- Caller 1 leads `key`, and caller 2 another key.
abbrev two_leaders : List Event
two_leaders = arrives 1 key ∷ arrives 2 other_key ∷ []

one_leads : leads 1 key (run idle two_leaders).leading ≡ true
unfolding run enter get insert text_eq
one_leads = refl

run-one_leader_example : ◌≡◌ {A = ℕ} 1 1
run-one_leader_example = run-one_leader two_leaders 1 1 key one_leads one_leads

abbrev failed : Result BackendChatResponse BackendError
failed = err (timeout (116 ∷ []))

run-follower_answered_example :
    (In {A = ℕ × Reply}
      (3, follower_result failed)
      (step
        (run
          (step (run idle two_leaders) (arrives 3 key))
          (arrives 4 key ∷ answers 2 other_key failed ∷ []))
        (answers 1 key failed)).coalescer.sent)
    × (get
          (step
            (run
              (step (run idle two_leaders) (arrives 3 key))
              (arrives 4 key ∷ answers 2 other_key failed ∷ []))
            (answers 1 key failed)).coalescer.inflight
          key
        ≡ none)
run-follower_answered_example =
    run-follower_answered two_leaders (arrives 4 key ∷ answers 2 other_key failed ∷ []) 1 3 key
      failed one_leads (tt, ((λ same. absurd (omega (arith, same.0))), tt))

run-dropped_leader_example :
    (¬ IsLed key (run (step (run idle two_leaders) (drops 1 key)) (arrives 5 key ∷ [])).leading)
    × ((enter
          (run (step (run idle two_leaders) (drops 1 key)) (arrives 5 key ∷ [])).coalescer
          key
          6).1
        ≡ joined)
run-dropped_leader_example = run-dropped_leader two_leaders (arrives 5 key ∷ []) 1 6 key one_leads
