-- ===== src/Limits/Trace/Isolation.antt =====
-- Keys do not disturb one another in the limiter of src/limits.rs.
use rust_llm_inference_gatew.Prelude.{
  ◌≡◌, refl, List, [], ◌∷◌, arith, if◌then◌else◌, Bool-cases, inl, inr,
}
use rust_llm_inference_gatew.Text.{Text, text_eq}
use rust_llm_inference_gatew.HashMap.{HashMap, get}
use rust_llm_inference_gatew.Limits.Snapshot.{RatePolicy, KeyUsage}
use rust_llm_inference_gatew.Limits.Trace.{TimedCall, step, run, key_of, get-step}

-- The calls of one key, in their order.
abbrev pub calls_of : Text → List TimedCall → List TimedCall
calls_of j [] = []
calls_of j (c ∷ cs) = if text_eq (key_of c) j then c ∷ calls_of j cs else calls_of j cs

-- Stores that agree on a key still do after a call.
step-agrees :
    (p : RatePolicy) (m n : HashMap KeyUsage) (c : TimedCall) (j : Text)
    → get m j ≡ get n j
    → get (step p m c) j ≡ get (step p n c) j
step-agrees p m n c j e = rw (get-step p m c j, get-step p n c j, e)

run-agrees :
    (p : RatePolicy) (m n : HashMap KeyUsage) (cs : List TimedCall) (j : Text)
    → get m j ≡ get n j
    → get (run p m cs) j ≡ get (run p n (calls_of j cs)) j
unfolding run
run-agrees p m n [] j e = e
run-agrees p m n (c ∷ cs) j e = elim (Bool-cases (text_eq (key_of c) j)) [
  | inl own ↦ rw own (run-agrees p (step p m c) (step p n c) cs j (step-agrees p m n c j e))
  | inr other ↦ rw other (run-agrees p (step p m c) n cs j (ground (arith, get-step p m c j)))
]

-- After any calls, what the limiter holds of a key is what the calls of that key alone would have
-- left: no other key's traffic changes its quota.
pub run-isolated :
    (p : RatePolicy) (m : HashMap KeyUsage) (cs : List TimedCall) (j : Text)
    → get (run p m cs) j ≡ get (run p m (calls_of j cs)) j
run-isolated p m cs j = run-agrees p m m cs j refl
