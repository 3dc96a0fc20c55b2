-- ===== src/Coalescing/OneShot/Leaders/Answered.antt =====
-- Followers of src/coalescing.rs get the answer of their leader.
use rust_llm_inference_gatew.Prelude.{
  ℕ, true, Option, none, some, List, [], ◌∷◌, ◌++◌, map, Result, ◌≡◌, ◌≢◌, refl, sym, ◌∙◌, subst,
  arith, In, In-append_left, In-append_right, In-map, inl, inr, Bool-cases, All,
}
use rust_llm_inference_gatew.Text.{Text, text_eq, text_eq_iff}
use rust_llm_inference_gatew.HashMap.{
  HashMap, get, get-remove_ne, get-insert, get-insert_self, get-remove_self,
}
use rust_llm_inference_gatew.Backend.{BackendError}
use rust_llm_inference_gatew.Models.{BackendChatResponse}
use rust_llm_inference_gatew.Coalescing.OneShot.{
  InflightCoalescer, Reply, CoalesceOutcome, leader, joined, enter, join, complete, follower_result,
}
use rust_llm_inference_gatew.Coalescing.OneShot.Leaders.{
  System, idle, Event, arrives, answers, drops, leads, without, lead_if, is_lead, step, run,
}
use rust_llm_inference_gatew.Coalescing.OneShot.Leaders.Uniqueness.{
  Inv, step-Inv, run-Inv, leads-once, leads-IsLed, is_lead-true, IsLed-in_flight,
}

-- The sender of `w` waits in the entry of `key`.
pub record Waits (w : ℕ) (key : Text) (m : HashMap (List ℕ)) : Type 0 where
  pub waiters : List ℕ
  pub held : get m key ≡ some waiters
  pub listed : In w waiters

-- An event that neither answers nor drops the caller `c` as the leader of `key`.
abbrev pub Spares : ℕ → Text → Event → Type 0
Spares c key (arrives d k) = Unit
Spares c key (answers d k result) = ¬ ((d ≡ c) × (k ≡ key))
Spares c key (drops d k) = ¬ ((d ≡ c) × (k ≡ key))

join-Waits :
    (c : InflightCoalescer) (d w : ℕ) (k key : Text) (o : Option (List ℕ))
    → get c.inflight k ≡ o
    → Waits w key c.inflight
    → Waits w key (join c k d o).0.inflight
unfolding join
join-Waits c d w k key none e q = record {
  waiters = q.waiters;
  held = ground (arith, get-insert c.inflight k key [], text_eq_iff k key, q.held);
  listed = q.listed;
}
join-Waits c d w k key (some ws) e q = elim (Bool-cases (text_eq k key)) [
  | inl same ↦ record {
    waiters = ws ++ d ∷ [];
    held = ground (arith, get-insert c.inflight k key (ws ++ d ∷ []));
    listed =
        In-append_left w ws (d ∷ [])
          (subst (In w) (ground (arith, text_eq_iff k key, q.held)) q.listed);
  }
  | inr other ↦ record {
    waiters = q.waiters;
    held = ground (arith, get-insert c.inflight k key (ws ++ d ∷ []), q.held);
    listed = q.listed;
  }
]

leads-without :
    (c d : ℕ) (key k : Text) (ls : List (ℕ × Text))
    → ¬ ((d ≡ c) × (k ≡ key))
    → leads c key ls ≡ true
    → leads c key (without d k ls) ≡ true
unfolding leads without
leads-without c d key k [] n h = h
leads-without c d key k (l ∷ ls) n h = elim (Bool-cases (is_lead d k l)) [
  | inl hit ↦ elim (Bool-cases (is_lead c key l)) [
    | inl own ↦ absurd (
        n (
          sym (is_lead-true d k l hit).0 ∙ (is_lead-true c key l own).0,
          sym (is_lead-true d k l hit).1 ∙ (is_lead-true c key l own).1,
        ))
    | inr not_own ↦ rw hit (leads-without c d key k ls n (ground arith))
  ]
  | inr miss ↦ elim (Bool-cases (is_lead c key l)) [
    | inl own ↦ rw miss (unfold leads in rw own)
    | inr not_own ↦
        rw miss (unfold leads in rw not_own (leads-without c d key k ls n (ground arith)))
  ]
]

lead_if-keeps :
    (o : CoalesceOutcome) (c d : ℕ) (key k : Text) (ls : List (ℕ × Text))
    → leads c key ls ≡ true
    → leads c key (lead_if o d k ls) ≡ true
unfolding lead_if leads
lead_if-keeps leader c d key k ls h = ground arith
lead_if-keeps joined c d key k ls h = h

-- While the leader of a key is spared, it leads on and the waiter waits on.
record Pending (c w : ℕ) (key : Text) (s : System) : Type 0 where
  inv : Inv s.coalescer.inflight s.leading
  led : leads c key s.leading ≡ true
  waits : Waits w key s.coalescer.inflight

step-Pending :
    (s : System) (e : Event) (c w : ℕ) (key : Text)
    → Spares c key e
    → Pending c w key s
    → Pending c w key (step s e)
unfolding step enter complete
step-Pending s (arrives d k) c w key q p = record {
  inv = step-Inv s (arrives d k) p.inv;
  led = lead_if-keeps (enter s.coalescer k d).1 c d key k s.leading p.led;
  waits = join-Waits s.coalescer d w k key (get s.coalescer.inflight k) refl p.waits;
}
step-Pending s (drops d k) c w key q p = record {
  inv = step-Inv s (drops d k) p.inv;
  led = leads-without c d key k s.leading q p.led;
  waits = p.waits;
}
step-Pending s (answers d k result) c w key q p = elim (Bool-cases (leads d k s.leading)) [
  | inr not_led ↦ rw not_led p
  | inl is_led ↦ rw is_led (record {
    inv = rw is_led at (step-Inv s (answers d k result) p.inv);
    led = leads-without c d key k s.leading q p.led;
    waits = record {
      waiters = p.waits.waiters;
      held =
          get-remove_ne s.coalescer.inflight k key (λ same. q (
            leads-once s.coalescer.inflight d c key s.leading p.inv
                (subst (λ j. leads d j s.leading ≡ true) same is_led) p.led,
            same,
          ))
          ∙ p.waits.held;
      listed = p.waits.listed;
    };
  })
]

run-Pending :
    (s : System) (es : List Event) (c w : ℕ) (key : Text)
    → All (Spares c key) es
    → Pending c w key s
    → Pending c w key (run s es)
unfolding run
run-Pending s [] c w key q p = p
run-Pending s (e ∷ es) c w key q p =
    run-Pending (step s e) es c w key q.1 (step-Pending s e c w key q.0 p)

-- One who arrives while its key is led waits behind the leader.
join-Waits_self :
    (c : InflightCoalescer) (w : ℕ) (key : Text) (o : Option (List ℕ))
    → get c.inflight key ≡ o
    → o ≢ none
    → Waits w key (join c key w o).0.inflight
unfolding join
join-Waits_self c w key none e n = absurd (n refl)
join-Waits_self c w key (some ws) e n = record {
  waiters = ws ++ w ∷ [];
  held = get-insert_self c.inflight key (ws ++ w ∷ []);
  listed = In-append_right w ws (w ∷ []) (inl refl);
}

complete-sends :
    (c : InflightCoalescer) (w : ℕ) (key : Text) (result : Result BackendChatResponse BackendError)
    → Waits w key c.inflight
    → In {A = ℕ × Reply} (w, follower_result result) (complete c key result).sent
unfolding complete
complete-sends c w key result q = rw q.held (
    In-append_right (w, follower_result result) c.sent
      (map (λ waiter. (waiter, follower_result result)) q.waiters)
      (In-map (λ (waiter : ℕ). (waiter, follower_result result)) w q.waiters q.listed))

answers-sends :
    (s : System) (c w : ℕ) (key : Text) (result : Result BackendChatResponse BackendError)
    → Pending c w key s
    → (In {A = ℕ × Reply}
        (w, follower_result result)
        (step s (answers c key result)).coalescer.sent)
      × (get (step s (answers c key result)).coalescer.inflight key ≡ none)
unfolding step
answers-sends s c w key result p = rw p.led (
  complete-sends s.coalescer w key result p.waits,
  unfold complete in get-remove_self s.coalescer.inflight key,
)

-- Who arrives with a key that `c` leads is sent the result of `c`'s call of the backend, as soon as
-- that call returns, whatever happens in between, unless `c` is dropped before; and the key is free
-- again.
pub run-follower_answered :
    (before during : List Event) (c w : ℕ) (key : Text)
    (result : Result BackendChatResponse BackendError)
    → leads c key (run idle before).leading ≡ true
    → All (Spares c key) during
    → let s = run (step (run idle before) (arrives w key)) during in
      let t = step s (answers c key result) in
      (In {A = ℕ × Reply} (w, follower_result result) t.coalescer.sent)
      × (get t.coalescer.inflight key ≡ none)
run-follower_answered before during c w key result led q = answers-sends _ c w key result (
    run-Pending (step (run idle before) (arrives w key)) during c w key q (record {
      inv = step-Inv s (arrives w key) inv;
      led = unfold step in lead_if-keeps (enter s.coalescer key w).1 c w key key s.leading led;
      waits =
          unfold step enter in
          join-Waits_self s.coalescer w key (get s.coalescer.inflight key) refl (
            IsLed-in_flight s.coalescer.inflight s.leading key inv
              (leads-IsLed c key s.leading led));
    }))
  where
    s : System
    s = run idle before

    inv : Inv s.coalescer.inflight s.leading
    inv = run-Inv idle before tt
