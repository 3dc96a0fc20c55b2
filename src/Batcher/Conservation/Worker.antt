-- ===== src/Batcher/Conservation/Worker.antt =====
-- The whole run of the worker of src/batcher.rs.
pub mod Termination
use mathlib.Core.List.{Perm}
use mathlib.Core.List.Perm
use rust_llm_inference_gatew.Prelude.{
  ℕ, zero, suc, ◌+◌, ◌-◌, ◌≤◌, ◌<◌, ◌≡◌, refl, sym, subst, true, inl, inr, Option, none, some, List,
  [], ◌∷◌, ◌++◌, arith, length, All, Bool-cases, Option-cases, max, Result,
}
use rust_llm_inference_gatew.Text.{text_eq_refl}
use rust_llm_inference_gatew.Backend.{BackendError}
use rust_llm_inference_gatew.Models.{BackendChatResponse}
use rust_llm_inference_gatew.Batcher.{
  BatchConfig, BatchClass, class_eq, max_tokens_eq, BatchItem, Signal, arrives, expires, receive,
  next_first, round, run_batch_worker, responses,
}
use rust_llm_inference_gatew.Batcher.Conservation.{items, OfClass, flatten, fill-Filled}

max_tokens_eq_refl : (a : Option ℕ) → max_tokens_eq a a ≡ true
unfolding max_tokens_eq
max_tokens_eq_refl none = refl
max_tokens_eq_refl (some a) = ground arith

class_eq_refl : (c : BatchClass) → class_eq c c ≡ true
unfolding class_eq
class_eq_refl c = rw (
  text_eq_refl c.model,
  max_tokens_eq_refl c.max_tokens,
  text_eq_refl c.temperature_repr,
  text_eq_refl c.top_p_repr,
)

module _ {R : Type 0} where
  -- A batch is of one class and within the size limit, of which the first item takes one place.
  pub record IsBatch (config : BatchConfig) (batch : List (BatchItem R)) : Type 0 where
    pub class : BatchClass
    pub same : All (OfClass class) batch
    pub size : length batch ≤ max 1 config.max_batch_size

  record Round (config : BatchConfig) (first : BatchItem R) (pending : List (BatchItem R))
      (signals : List (Signal R)) (r : List (BatchItem R) × List (BatchItem R) × List (Signal R))
      : Type 0 where
    kept : Perm (r.0 ++ (r.1 ++ items r.2)) (first ∷ (pending ++ items signals))
    batch : IsBatch config r.0
    left : length r.1 + length r.2 ≤ length pending + length signals

  round-Round :
      (config : BatchConfig) (first : BatchItem R) (pending : List (BatchItem R))
      (signals : List (Signal R))
      → Round config first pending signals (round config first pending signals)
  unfolding round
  round-Round config first pending signals = elim (Bool-cases config.enabled) [
    | inl on ↦
        let f =
          fill-Filled first.class (config.max_batch_size - 1) (first ∷ []) pending signals
            (class_eq_refl first.class, tt) in
        simp on (record {
          kept = f.kept;
          batch = record { class = first.class; same = f.same; size = omega (arith, f.size) };
          left = f.left;
        })
    | inr off ↦ simp off (record {
      kept = Perm.refl _;
      batch = record {
        class = first.class;
        same = (class_eq_refl first.class, tt);
        size = omega arith;
      };
      left = omega arith;
    })
  ]

  -- The first item of a round comes from the pending ones or, if there are none, from the channel.
  abbrev First :
      List (BatchItem R)
      → List (Signal R)
      → Option (BatchItem R × List (BatchItem R) × List (Signal R))
      → Type 0
  First pending signals none = pending ++ items signals ≡ []
  First pending signals (some (first, pending', signals')) =
      (first ∷ (pending' ++ items signals') ≡ pending ++ items signals)
      × (length pending' + length signals' + 1 ≤ length pending + length signals)

  abbrev Received : List (Signal R) → Option (BatchItem R × List (Signal R)) → Type 0
  Received signals none = items signals ≡ []
  Received signals (some (item, rest)) =
      (item ∷ items rest ≡ items signals) × (length rest + 1 ≤ length signals)

  receive-Received : (signals : List (Signal R)) → Received signals (receive signals)
  unfolding receive
  receive-Received [] = refl
  receive-Received (arrives item ∷ signals) = (refl, omega arith)
  receive-Received (expires ∷ signals) = expired (receive signals) (receive-Received signals)
    where
      expired :
          (o : Option (BatchItem R × List (Signal R)))
          → Received signals o
          → Received (expires ∷ signals) o
      expired none e = e
      expired (some (item, rest)) (e, l) = (e, omega arith)

  next_first-First :
      (pending : List (BatchItem R)) (signals : List (Signal R))
      → First pending signals (next_first pending signals)
  unfolding next_first
  next_first-First (item ∷ pending) signals = (refl, omega arith)
  next_first-First [] signals = from_channel (receive signals) (receive-Received signals)
    where
      from_channel :
          (o : Option (BatchItem R × List (Signal R)))
          → Received signals o
          → First [] signals (elim o [ none ↦ none | some (item, rest) ↦ some (item, [], rest) ])
      from_channel none e = e
      from_channel (some (item, rest)) (e, l) = (e, omega arith)

  -- What the worker makes of its inputs.
  pub record Served (config : BatchConfig) (all : List (BatchItem R))
      (o : Option (List (List (BatchItem R)))) : Type 0 where
    pub batches : List (List (BatchItem R))
    pub result : o ≡ some batches
    pub kept : Perm (flatten batches) all
    pub batched : All (IsBatch config) batches

  more_Served :
      (config : BatchConfig) (first : BatchItem R) (pending : List (BatchItem R))
      (signals : List (Signal R)) (all : List (BatchItem R))
      (r : List (BatchItem R) × List (BatchItem R) × List (Signal R))
      {o : Option (List (List (BatchItem R)))}
      → first ∷ (pending ++ items signals) ≡ all
      → Round config first pending signals r
      → Served config (r.1 ++ items r.2) o
      → Served config all (elim o [ none ↦ none | some batches ↦ some (r.0 ∷ batches) ])
  more_Served config first pending signals all r {o} e round_ s = record {
    batches = r.0 ∷ s.batches;
    result =
        subst
          (λ x.
            (elim x [ none ↦ none | some batches ↦ some (r.0 ∷ batches) ]) ≡ some (r.0 ∷ s.batches))
          (sym s.result) refl;
    kept =
        Perm.trans (Perm.append_left r.0 s.kept)
          (subst (Perm (r.0 ++ (r.1 ++ items r.2))) e round_.kept);
    batched = (round_.batch, s.batched);
  }

  pub run_batch_worker-Served :
      (fuel : ℕ) (config : BatchConfig) (pending : List (BatchItem R)) (signals : List (Signal R))
      → length pending + length signals < fuel
      → Served config (pending ++ items signals) (run_batch_worker fuel config pending signals)
  unfolding run_batch_worker
  run_batch_worker-Served zero config pending signals h = absurd (omega arith)
  run_batch_worker-Served (suc fuel) config pending signals h =
      elim (Option-cases (next_first pending signals)) [
        | inl over ↦
            rw (over, run_batch_worker)
              (record {
                batches = [];
                result = refl;
                kept =
                    subst (Perm [])
                      (sym (subst (First pending signals) over (next_first-First pending signals)))
                      (Perm.refl []);
                batched = tt;
              })
        | inr ((first, pending', signals'), got) ↦
            let f : First pending signals (some (first, pending', signals')) =
              subst (First pending signals) got (next_first-First pending signals) in
            let r = round config first pending' signals' in
            let here = round-Round config first pending' signals' in
            rw (got, run_batch_worker)
              (more_Served config first pending' signals' (pending ++ items signals) r f.0 here
                (run_batch_worker-Served fuel config r.1 r.2 (omega (arith, here.left, f.1))))
      ]

  -- Given as many rounds as there are signals, and one more, the worker stops by itself, and then every
  -- request that came in has been answered once, on its own channel, with what the backend returned for
  -- it, and every batch was of one class and within the size limit.
  pub run_batch_worker-answers :
      (execute : R → Result BackendChatResponse BackendError) (fuel : ℕ) (config : BatchConfig)
      (signals : List (Signal R))
      → length signals < fuel
      → (batches : List (List (BatchItem R))) × (run_batch_worker fuel config [] signals
          ≡ some batches)
        × Perm (responses execute (flatten batches)) (responses execute (items signals))
        × All (IsBatch config) batches
  unfolding responses
  run_batch_worker-answers execute fuel config signals h =
      let s = run_batch_worker-Served fuel config [] signals (omega arith) in
      (s.batches, s.result, Perm.map _ s.kept, s.batched)
