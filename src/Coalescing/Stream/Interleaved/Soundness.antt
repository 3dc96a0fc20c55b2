-- ===== src/Coalescing/Stream/Interleaved/Soundness.antt =====
-- Every step of the callers and the leaders of the streams of src/coalescing.rs keeps the map, the
-- entries and the channels in agreement.
use rust_llm_inference_gatew.Prelude.{
  update, update_all, ℕ, true, none, some, [], ◌≡◌, ◌<◌, refl, sym, ap, subst, ◌∙◌, arith,
  Option-cases, inl, inr,
}
use rust_llm_inference_gatew.Text.{Text}
use rust_llm_inference_gatew.HashMap.{get, get-empty}
use rust_llm_inference_gatew.Coalescing.Stream.{StreamItem, new_entry}
use rust_llm_inference_gatew.Coalescing.Stream.Shared.{
  look_up, attach, find_entry, push_item, remove_entry,
}
use rust_llm_inference_gatew.Coalescing.Stream.Interleaved.{
  Phase, joining, waiting, found, removing, stopped, System, Step, Reach, calls, subscribes, waits,
  finds, looked, pushes, removes, goes_away, call, follow, lead, find, push, clear, hangs_up, start,
  later, initial,
}
use rust_llm_inference_gatew.Coalescing.Stream.Interleaved.Delivery.{
  Delivery, hang_up-Delivery, make_entry-Delivery, publish-Delivery, subscribe-Delivery,
}
use rust_llm_inference_gatew.Coalescing.Stream.Interleaved.Locks.{
  is_active, Owns, Locks, phase-Locks, make_entry-Locks, remove-Locks,
}
use rust_llm_inference_gatew.Coalescing.Stream.Interleaved.Logs.{
  is_over, Log, Log-subscribe, Log-publish, update_logs, publishing_phase,
}

pub record IsSound (s : System) : Type 0 where
  pub locks : Locks s.shared.next_entry s.shared.stream_inflight s.phase s.key
  pub delivery : Delivery s.shared.next_entry s.shared.entry s.shared.channels s.source
  pub logs :
      (id : ℕ) → id < s.shared.next_entry → Log (s.shared.entry id) (s.phase id) (s.published id)

module _ (s : System) (v : IsSound s) where
  open v use {locks, delivery, logs}

  goes_away-IsSound : (rx : ℕ) → IsSound (goes_away s rx)
  unfolding goes_away
  goes_away-IsSound rx = record {
    locks = locks;
    delivery = hang_up-Delivery _ _ _ _ delivery rx;
    logs = logs;
  }

  subscribes-IsSound : (id : ℕ) → id < s.shared.next_entry → IsSound (subscribes s id)
  unfolding subscribes attach
  subscribes-IsSound id lt = record {
    locks = locks;
    delivery = subscribe-Delivery _ _ _ _ delivery id lt;
    logs = λ i i_lt.
        update_all s.shared.entry id _ (λ j e. Log e (s.phase j) (s.published j)) i
          (λ same. Log-subscribe (s.shared.entry id) s.shared.channels _ _ (logs id lt))
          (λ other. logs i i_lt);
  }

  -- A leader goes on without a change of its entry.
  phase-IsSound :
      (id : ℕ) (p : Phase)
      → id < s.shared.next_entry
      → is_active (s.phase id) ≡ true
      → is_active p ≡ true
      → Owns id p
      → is_over (s.phase id) ≡ is_over p
      → IsSound (record s { phase = update s.phase id p })
  phase-IsSound id p lt active active' owns same = record {
    locks = phase-Locks _ _ _ _ locks id p lt active active' owns;
    delivery = delivery;
    logs = λ i i_lt.
        update_all s.phase id p (λ j q. Log (s.shared.entry j) q (s.published j)) i
          (λ _. record { history = (logs id lt).history; closed = (logs id lt).closed ∙ same })
          (λ other. logs i i_lt);
  }

  finds-IsSound :
      (id : ℕ) (item : StreamItem)
      → id < s.shared.next_entry
      → s.phase id ≡ waiting
      → IsSound (finds s id item)
  unfolding finds find_entry looked
  finds-IsSound id item lt at =
      rw (locks.held id lt (ap is_active at))
        (phase-IsSound id (found item id) lt (ap is_active at) refl refl (ap is_over at))

  removes-IsSound :
      (id : ℕ) → id < s.shared.next_entry → s.phase id ≡ removing → IsSound (removes s id)
  unfolding removes remove_entry
  removes-IsSound id lt at = record {
    locks = remove-Locks _ _ _ _ locks id lt (ap is_active at);
    delivery = delivery;
    logs = λ i i_lt.
        update_all s.phase id stopped (λ j q. Log (s.shared.entry j) q (s.published j)) i
          (λ _. record {
            history = (logs id lt).history;
            closed = (logs id lt).closed ∙ ap is_over at;
          })
          (λ other. logs i i_lt);
  }

  calls_held : (k : Text) (id : ℕ) → get s.shared.stream_inflight k ≡ some id → calls s k ≡ s
  unfolding calls look_up
  calls_held k id taken = rw taken refl

  calls_free-IsSound : (k : Text) → get s.shared.stream_inflight k ≡ none → IsSound (calls s k)
  unfolding calls look_up
  calls_free-IsSound k free = rw free (record {
    locks = make_entry-Locks _ _ _ _ locks k free;
    delivery = make_entry-Delivery _ _ _ _ delivery;
    logs = λ i i_lt.
        update_logs s.shared.entry s.phase s.published s.shared.next_entry new_entry joining [] i
          (record { history = refl; closed = refl }) (λ other. logs i (omega arith));
  })

  calls-IsSound : (k : Text) → IsSound (calls s k)
  calls-IsSound k = elim (Option-cases (get s.shared.stream_inflight k)) [
    | inl free ↦ calls_free-IsSound k free
    | inr (id, taken) ↦ rw (calls_held k id taken) v
  ]

  pushes_own-IsSound :
      (id : ℕ) (item : StreamItem)
      → id < s.shared.next_entry
      → s.phase id ≡ found item id
      → IsSound (pushes s id item id)
  unfolding pushes push_item
  pushes_own-IsSound id item lt at = record {
    locks =
        phase-Locks _ _ _ _ locks id _ lt (ap is_active at)
          (publishing_phase (push_item s.shared id item).1 id).0
          (publishing_phase (push_item s.shared id item).1 id).1;
    delivery = publish-Delivery _ _ _ _ delivery id lt item;
    logs = λ i i_lt.
        update_logs s.shared.entry s.phase s.published id _ _ _ i
          (Log-publish (s.shared.entry id) s.shared.channels (s.phase id) (s.published id) item
            (ap is_over at) (logs id lt))
          (λ other. logs i i_lt);
  }

  pushes-IsSound :
      (id : ℕ) (item : StreamItem) (held : ℕ)
      → id < s.shared.next_entry
      → s.phase id ≡ found item held
      → IsSound (pushes s id item held)
  pushes-IsSound id item held lt at =
      let own : held ≡ id = subst (Owns id) at (locks.own id lt) in
      subst (λ h. IsSound (pushes s id item h)) (sym own)
        (pushes_own-IsSound id item lt (at ∙ ap (found item) own))

leads-IsSound :
    (s : System) (id : ℕ)
    → IsSound s
    → id < s.shared.next_entry
    → s.phase id ≡ joining
    → IsSound (waits (subscribes s id) id)
unfolding waits subscribes attach
leads-IsSound s id v lt at =
    phase-IsSound (subscribes s id) (subscribes-IsSound s v id lt) id waiting lt (ap is_active at)
      refl tt (ap is_over at)

Step-IsSound : {s t : System} → Step s t → IsSound s → IsSound t
Step-IsSound {s} (call k) v = calls-IsSound s v k
Step-IsSound {s} (follow id lt) v = subscribes-IsSound s v id lt
Step-IsSound {s} (lead id lt at) v = leads-IsSound s id v lt at
Step-IsSound {s} (find id item lt at) v = finds-IsSound s v id item lt at
Step-IsSound {s} (push id item held lt at) v = pushes-IsSound s v id item held lt at
Step-IsSound {s} (clear id lt at) v = removes-IsSound s v id lt at
Step-IsSound {s} (hangs_up rx) v = goes_away-IsSound s v rx

pub Reach-IsSound : {s t : System} → IsSound s → Reach s t → IsSound t
Reach-IsSound v start = v
Reach-IsSound v (later r st) = Step-IsSound st (Reach-IsSound v r)

pub initial-IsSound : IsSound initial
initial-IsSound = record {
  locks = record {
    registered = λ k id h. absurd (ground (arith, get-empty {V = ℕ} k));
    held = λ id lt a. absurd (omega arith);
    own = λ id lt. absurd (omega arith);
  };
  delivery = record {
    sources = λ rx lt. absurd (omega arith);
    members = λ id rx lt h. absurd (omega arith);
    receivers = λ id lt. absurd (omega arith);
  };
  logs = λ id lt. absurd (omega arith);
}
