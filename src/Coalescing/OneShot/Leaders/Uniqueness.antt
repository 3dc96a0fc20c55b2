-- ===== src/Coalescing/OneShot/Leaders/Uniqueness.antt =====
-- At most one leader for each key of src/coalescing.rs, and what its followers receive.
use rust_llm_inference_gatew.Prelude.{
  ℕ, Bool, true, false, Option, none, some, List, [], ◌∷◌, ◌++◌, ◌≡◌, ◌≢◌, refl, sym, ◌∙◌, subst,
  arith, inl, inr, ◌⊎◌, Bool-cases, if◌then◌else◌,
}
use rust_llm_inference_gatew.Text.{Text, text_eq, text_eq_iff}
use rust_llm_inference_gatew.HashMap.{
  HashMap, get, insert, remove, get-remove_ne, get-insert, get-insert_self,
}
use rust_llm_inference_gatew.Coalescing.OneShot.{InflightCoalescer, enter, join, complete}
use rust_llm_inference_gatew.Coalescing.OneShot.Leaders.{
  System, idle, Event, arrives, answers, drops, leads, without, lead_if, is_lead, step, run,
}

-- The keys that are led, with their leaders.
abbrev pub IsLed : Text → List (ℕ × Text) → Type 0
IsLed key [] = ⊥
IsLed key ((l, k) ∷ ls) = (k ≡ key) ⊎ IsLed key ls

-- No key is led twice, and every key that is led is in flight.
abbrev pub Inv : HashMap (List ℕ) → List (ℕ × Text) → Type 0
Inv m [] = Unit
Inv m ((l, k) ∷ ls) = ((ws : List ℕ) × (get m k ≡ some ws)) × (¬ IsLed k ls) × Inv m ls

pub IsLed-in_flight :
    (m : HashMap (List ℕ)) (ls : List (ℕ × Text)) (key : Text)
    → Inv m ls
    → IsLed key ls
    → get m key ≢ none
IsLed-in_flight m [] key v h = absurd h
IsLed-in_flight m ((l, k) ∷ ls) key v (inl e) = ground (arith, v.0.1)
IsLed-in_flight m ((l, k) ∷ ls) key v (inr h) = IsLed-in_flight m ls key v.2 h

-- A map in which the keys that are led are still in flight.
Inv-transfer :
    (m n : HashMap (List ℕ)) (ls : List (ℕ × Text))
    → ((k : Text) (ws : List ℕ)
        → IsLed k ls
        → get m k ≡ some ws
        → (us : List ℕ) × (get n k ≡ some us))
    → Inv m ls
    → Inv n ls
Inv-transfer m n [] keep v = tt
Inv-transfer m n ((l, k) ∷ ls) keep v =
    (keep k v.0.0 (inl refl) v.0.1, v.1, Inv-transfer m n ls (λ j ws h e. keep j ws (inr h) e) v.2)

kept :
    (m : HashMap (List ℕ)) (key : Text) (vs : List ℕ) (k : Text) (us : List ℕ)
    → get m k ≡ some us
    → (ws : List ℕ) × (get (insert m key vs) k ≡ some ws)
kept m key vs k us at = elim (Bool-cases (text_eq key k)) [
  | inl same ↦ (vs, ground (arith, get-insert m key k vs))
  | inr other ↦ (us, ground (arith, get-insert m key k vs))
]

IsLed-if :
    (b : Bool) (j : Text) (l : ℕ × Text) (ls rest : List (ℕ × Text))
    → (IsLed j rest → IsLed j ls)
    → IsLed j (if b then rest else l ∷ rest)
    → IsLed j (l ∷ ls)
IsLed-if true j l ls rest f h = inr (f h)
IsLed-if false j l ls rest f (inl e) = inl e
IsLed-if false j l ls rest f (inr h) = inr (f h)

pub IsLed-without :
    (caller : ℕ) (key j : Text) (ls : List (ℕ × Text))
    → IsLed j (without caller key ls)
    → IsLed j ls
unfolding without
IsLed-without caller key j [] h = h
IsLed-without caller key j (l ∷ ls) h =
    IsLed-if (is_lead caller key l) j l ls (without caller key ls) (IsLed-without caller key j ls) h

pub Inv-without :
    (m : HashMap (List ℕ)) (caller : ℕ) (key : Text) (ls : List (ℕ × Text))
    → Inv m ls
    → Inv m (without caller key ls)
unfolding without
Inv-without m caller key [] v = v
Inv-without m caller key (l ∷ ls) v = elim (Bool-cases (is_lead caller key l)) [
  | inl hit ↦ rw hit (Inv-without m caller key ls v.2)
  | inr miss ↦
      rw miss (v.0, (λ h. v.1 (IsLed-without caller key l.1 ls h)), Inv-without m caller key ls v.2)
]

pub is_lead-true :
    (caller : ℕ) (key : Text) (l : ℕ × Text)
    → is_lead caller key l ≡ true
    → (l.0 ≡ caller) × (l.1 ≡ key)
is_lead-true caller key l h = ground (arith, text_eq_iff l.1 key)

pub leads-IsLed :
    (caller : ℕ) (key : Text) (ls : List (ℕ × Text)) → leads caller key ls ≡ true → IsLed key ls
unfolding leads
leads-IsLed caller key [] h = absurd (cc)
leads-IsLed caller key (l ∷ ls) h = elim (Bool-cases (is_lead caller key l)) [
  | inl hit ↦ inl (is_lead-true caller key l hit).1
  | inr miss ↦ inr (leads-IsLed caller key ls (ground arith))
]

-- Once its leader is gone a key is led no more.
pub not-IsLed-without :
    (m : HashMap (List ℕ)) (caller : ℕ) (key : Text) (ls : List (ℕ × Text))
    → Inv m ls
    → leads caller key ls ≡ true
    → ¬ IsLed key (without caller key ls)
unfolding leads without
not-IsLed-without m caller key [] v h = absurd (cc)
not-IsLed-without m caller key (l ∷ ls) v h = elim (Bool-cases (is_lead caller key l)) [
  | inl hit ↦ rw hit (λ r. v.1 (
      subst (λ k. IsLed k ls) (sym (is_lead-true caller key l hit).1)
        (IsLed-without caller key key ls r)))
  | inr miss ↦
      let rest : leads caller key ls ≡ true = ground arith in
      rw miss (elim [
        | inl e ↦ v.1 (subst (λ k. IsLed k ls) (sym e) (leads-IsLed caller key ls rest))
        | inr r ↦ not-IsLed-without m caller key ls v.2 rest r
      ])
]

-- Two leaders of one key are one caller.
pub leads-once :
    (m : HashMap (List ℕ)) (a b : ℕ) (key : Text) (ls : List (ℕ × Text))
    → Inv m ls
    → leads a key ls ≡ true
    → leads b key ls ≡ true
    → a ≡ b
unfolding leads
leads-once m a b key [] v h k = absurd (cc)
leads-once m a b key (l ∷ ls) v h k = elim (Bool-cases (is_lead a key l)) [
  | inl x ↦ elim (Bool-cases (is_lead b key l)) [
    | inl y ↦ sym (is_lead-true a key l x).0 ∙ (is_lead-true b key l y).0
    | inr y ↦ absurd (
        v.1 (
          subst (λ k. IsLed k ls) (sym (is_lead-true a key l x).1)
            (leads-IsLed b key ls (ground arith))))
  ]
  | inr x ↦ elim (Bool-cases (is_lead b key l)) [
    | inl y ↦ absurd (
        v.1 (
          subst (λ k. IsLed k ls) (sym (is_lead-true b key l y).1)
            (leads-IsLed a key ls (ground arith))))
    | inr y ↦ leads-once m a b key ls v.2 (ground arith) (ground arith)
  ]
]

arrives-Inv :
    (c : InflightCoalescer) (ls : List (ℕ × Text)) (caller : ℕ) (key : Text) (o : Option (List ℕ))
    → get c.inflight key ≡ o
    → Inv c.inflight ls
    → Inv (join c key caller o).0.inflight (lead_if (join c key caller o).1 caller key ls)
unfolding join lead_if
arrives-Inv c ls caller key (some ws) e v =
    Inv-transfer c.inflight (insert c.inflight key (ws ++ caller ∷ [])) ls
      (λ k us led at. kept c.inflight key (ws ++ caller ∷ []) k us at) v
arrives-Inv c ls caller key none e v = (
  ([], get-insert_self c.inflight key []),
  (λ led. IsLed-in_flight c.inflight ls key v led e),
  Inv-transfer c.inflight (insert c.inflight key []) ls
      (λ k us led at. kept c.inflight key [] k us at) v,
)

pub step-Inv :
    (s : System) (e : Event)
    → Inv s.coalescer.inflight s.leading
    → Inv (step s e).coalescer.inflight (step s e).leading
unfolding step enter
step-Inv s (arrives caller key) v =
    arrives-Inv s.coalescer s.leading caller key (get s.coalescer.inflight key) refl v
step-Inv s (drops caller key) v = Inv-without s.coalescer.inflight caller key s.leading v
step-Inv s (answers caller key result) v = elim (Bool-cases (leads caller key s.leading)) [
  | inl led ↦ rw led (
      unfold complete in
      Inv-transfer s.coalescer.inflight (remove s.coalescer.inflight key)
        (without caller key s.leading)
        (λ k ws still at. (
          ws,
          get-remove_ne s.coalescer.inflight key k (λ same.
                not-IsLed-without s.coalescer.inflight caller key s.leading v led
                  (subst (λ j. IsLed j (without caller key s.leading)) (sym same) still))
              ∙ at,
        ))
        (Inv-without s.coalescer.inflight caller key s.leading v))
  | inr not_led ↦ rw not_led v
]

pub run-Inv :
    (s : System) (es : List Event)
    → Inv s.coalescer.inflight s.leading
    → Inv (run s es).coalescer.inflight (run s es).leading
unfolding run
run-Inv s [] v = v
run-Inv s (e ∷ es) v = run-Inv (step s e) es (step-Inv s e v)

-- However the calls, answers and cancellations interleave, two callers that lead one key are one
-- caller: the backend has at most one call in flight for a key.
pub run-one_leader :
    (es : List Event) (a b : ℕ) (key : Text)
    → leads a key (run idle es).leading ≡ true
    → leads b key (run idle es).leading ≡ true
    → a ≡ b
run-one_leader es a b key =
    leads-once (run idle es).coalescer.inflight a b key (run idle es).leading (run-Inv idle es tt)
