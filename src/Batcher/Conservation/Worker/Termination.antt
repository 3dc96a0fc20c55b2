-- ===== src/Batcher/Conservation/Worker/Termination.antt =====
-- The worker of src/batcher.rs ends when its channel is closed.
use rust_llm_inference_gatew.Prelude.{
  ℕ, zero, suc, ◌+◌, ◌<◌, ◌≡◌, refl, ap, subst, ◌∙◌, arith, inl, inr, Option, none, some, List, [],
  ◌∷◌, length, Option-cases,
}
use rust_llm_inference_gatew.Batcher.{
  BatchConfig, BatchItem, Signal, next_first, round, run_batch_worker,
}
use rust_llm_inference_gatew.Batcher.Conservation.Worker.{
  First, next_first-First, round-Round, run_batch_worker-Served,
}

module _ {R : Type 0} where
  -- Two bounds above the number of requests and signals are as good as each other.
  run_batch_worker-same :
      (f g : ℕ) (config : BatchConfig) (pending : List (BatchItem R)) (signals : List (Signal R))
      → length pending + length signals < f
      → length pending + length signals < g
      → run_batch_worker f config pending signals ≡ run_batch_worker g config pending signals
  unfolding run_batch_worker
  run_batch_worker-same zero g config pending signals p q = absurd (omega arith)
  run_batch_worker-same (suc f) zero config pending signals p q = absurd (omega arith)
  run_batch_worker-same (suc f) (suc g) config pending signals p q =
      elim (Option-cases (next_first pending signals)) [
        | inl over ↦ rw (over, run_batch_worker) refl
        | inr ((first, pending', signals'), got) ↦
            let start : First pending signals (some (first, pending', signals')) =
              subst (First pending signals) got (next_first-First pending signals) in
            let r = round config first pending' signals' in
            let left = (round-Round config first pending' signals').left in
            rw (got, run_batch_worker)
              (ap
                (λ (o : Option (List (List (BatchItem R)))). elim o [
                  | none ↦ none
                  | some batches ↦ some (r.0 ∷ batches)
                ])
                (run_batch_worker-same f g config r.1 r.2 (omega (arith, left, start.1))
                  (omega (arith, left, start.1))))
      ]

  -- Once its channel is closed the worker ends, within one round more than it saw signals: any bound
  -- on the rounds above that number gives the batches that one round more than the signals gives,
  -- whatever the configuration and with batching switched off too.
  pub run_batch_worker-terminates :
      (fuel : ℕ) (config : BatchConfig) (signals : List (Signal R))
      → length signals < fuel
      → (batches : List (List (BatchItem R))) × (run_batch_worker
            (suc (length signals))
            config
            []
            signals
          ≡ some batches)
        × (run_batch_worker fuel config [] signals ≡ some batches)
  run_batch_worker-terminates fuel config signals enough =
      let s = run_batch_worker-Served (suc (length signals)) config [] signals (omega arith) in
      (
        s.batches,
        s.result,
        run_batch_worker-same fuel (suc (length signals)) config [] signals (omega arith)
              (omega arith)
            ∙ s.result,
      )
