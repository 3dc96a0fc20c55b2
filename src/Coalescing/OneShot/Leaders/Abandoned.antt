-- ===== src/Coalescing/OneShot/Leaders/Abandoned.antt =====
-- What becomes of a key of src/coalescing.rs whose leader is dropped.
use rust_llm_inference_gatew.Prelude.{
  ℕ, true, Option, none, some, List, [], ◌∷◌, ◌++◌, ◌≡◌, refl, ◌∙◌, subst, arith, inl, inr,
  Bool-cases, Option-cases,
}
use rust_llm_inference_gatew.Text.{Text, text_eq, text_eq_iff}
use rust_llm_inference_gatew.HashMap.{get, get-remove_ne, get-insert}
use rust_llm_inference_gatew.Coalescing.OneShot.{InflightCoalescer, joined, enter, join, complete}
use rust_llm_inference_gatew.Coalescing.OneShot.Leaders.{
  System, idle, Event, arrives, answers, drops, leads, lead_if, step, run,
}
use rust_llm_inference_gatew.Coalescing.OneShot.Leaders.Uniqueness.{
  IsLed, Inv, run-Inv, leads-IsLed, IsLed-without, IsLed-in_flight, not-IsLed-without,
}

-- The key is in flight, and nobody leads it.
pub record Orphaned (key : Text) (s : System) : Type 0 where
  pub waiters : List ℕ
  pub held : get s.coalescer.inflight key ≡ some waiters
  pub not_led : ¬ IsLed key s.leading

join-held :
    (c : InflightCoalescer) (d : ℕ) (k key : Text) (o : Option (List ℕ)) (ws : List ℕ)
    → get c.inflight k ≡ o
    → get c.inflight key ≡ some ws
    → (us : List ℕ) × (get (join c k d o).0.inflight key ≡ some us)
unfolding join
join-held c d k key none ws e h =
    (ws, ground (arith, get-insert c.inflight k key [], text_eq_iff k key))
join-held c d k key (some vs) ws e h = elim (Bool-cases (text_eq k key)) [
  | inl same ↦ (vs ++ d ∷ [], ground (arith, get-insert c.inflight k key (vs ++ d ∷ [])))
  | inr other ↦ (ws, ground (arith, get-insert c.inflight k key (vs ++ d ∷ [])))
]

join-not-IsLed :
    (c : InflightCoalescer) (d : ℕ) (k key : Text) (o : Option (List ℕ)) (ws : List ℕ)
    (ls : List (ℕ × Text))
    → get c.inflight k ≡ o
    → get c.inflight key ≡ some ws
    → ¬ IsLed key ls
    → ¬ IsLed key (lead_if (join c k d o).1 d k ls)
unfolding join lead_if
join-not-IsLed c d k key (some vs) ws ls e h n = n
join-not-IsLed c d k key none ws ls e h n = elim [
  | inl same ↦ absurd (ground (arith, same))
  | inr led ↦ n led
]

step-Orphaned : (s : System) (e : Event) (key : Text) → Orphaned key s → Orphaned key (step s e)
unfolding step enter complete
step-Orphaned s (arrives d k) key o =
    let (us, held) =
      join-held s.coalescer d k key (get s.coalescer.inflight k) o.waiters refl o.held in
    record {
      waiters = us;
      held = held;
      not_led =
          join-not-IsLed s.coalescer d k key (get s.coalescer.inflight k) o.waiters s.leading refl
            o.held o.not_led;
    }
step-Orphaned s (drops d k) key o = record {
  waiters = o.waiters;
  held = o.held;
  not_led = λ h. o.not_led (IsLed-without d k key s.leading h);
}
step-Orphaned s (answers d k result) key o = elim (Bool-cases (leads d k s.leading)) [
  | inr idle_ ↦ rw idle_ o
  | inl led ↦ rw led (record {
    waiters = o.waiters;
    held =
        get-remove_ne s.coalescer.inflight k key
          (λ same. o.not_led (subst (λ j. IsLed j s.leading) same (leads-IsLed d k s.leading led)))
        ∙ o.held;
    not_led = λ h. o.not_led (IsLed-without d k key s.leading h);
  })
]

run-Orphaned :
    (s : System) (es : List Event) (key : Text) → Orphaned key s → Orphaned key (run s es)
unfolding run
run-Orphaned s [] key o = o
run-Orphaned s (e ∷ es) key o = run-Orphaned (step s e) es key (step-Orphaned s e key o)

drops-Orphaned :
    (before : List Event) (c : ℕ) (key : Text)
    → leads c key (run idle before).leading ≡ true
    → Orphaned key (step (run idle before) (drops c key))
unfolding step
drops-Orphaned before c key led = elim (Option-cases (get s.coalescer.inflight key)) [
  | inl absent ↦ absurd (
      IsLed-in_flight s.coalescer.inflight s.leading key inv (leads-IsLed c key s.leading led)
        absent)
  | inr (ws, held) ↦ record {
    waiters = ws;
    held = held;
    not_led = not-IsLed-without s.coalescer.inflight c key s.leading inv led;
  }
]
  where
    s : System
    s = run idle before

    inv : Inv s.coalescer.inflight s.leading
    inv = run-Inv idle before tt

enter-joins :
    (c : InflightCoalescer) (w : ℕ) (key : Text) (ws : List ℕ)
    → get c.inflight key ≡ some ws
    → (enter c key w).1 ≡ joined
unfolding enter join
enter-joins c w key ws h = rw (h, join)

-- Once the leader of a key is dropped before its call returns, the key stays in flight for good:
-- whatever happens afterwards, nobody leads it, and who arrives with it joins as a follower, to wait
-- for an answer that no call of the backend will bring.
pub run-dropped_leader :
    (before after : List Event) (c w : ℕ) (key : Text)
    → leads c key (run idle before).leading ≡ true
    → let s = run (step (run idle before) (drops c key)) after in
      (¬ IsLed key s.leading) × ((enter s.coalescer key w).1 ≡ joined)
run-dropped_leader before after c w key led =
    let o =
      run-Orphaned (step (run idle before) (drops c key)) after key
        (drops-Orphaned before c key led) in
    (
      o.not_led,
      enter-joins (run (step (run idle before) (drops c key)) after).coalescer w key o.waiters
          o.held,
    )
