-- ===== src/Coalescing/Stream/Interleaved/Delivery.antt =====
-- Every live receiver of the streams of src/coalescing.rs holds the history of its own entry, whatever
-- is done on other entries.
use rust_llm_inference_gatew.Prelude.{
  update, update_all, update_ne, update_self, ℕ, suc, ◌+◌, Bool, true, ◌≡◌, ◌≢◌, ◌<◌, ◌≤◌, refl,
  sym, ap, ◌∙◌, arith, In, inl, inr, ◌⊎◌, Bool-cases,
}
use rust_llm_inference_gatew.Coalescing.Stream.{
  StreamItem, StreamEntry, Channels, new_entry, subscribe, open_channel, publish, hang_up,
  is_terminal_item,
}
use rust_llm_inference_gatew.Coalescing.Stream.Retain.{In-retain, retain-parts, sent-retain_other}
use rust_llm_inference_gatew.Coalescing.Stream.Receivers.{
  Inv, In-snoc, subscribe-Inv, hang_up-Inv, publish-Inv,
}

-- `n` entries; the caller of each channel has found the entry `source`.
pub record Delivery (n : ℕ) (entry : ℕ → StreamEntry) (c : Channels) (source : ℕ → ℕ) : Type 0 where
  pub sources : (rx : ℕ) → rx < c.next → source rx < n
  pub members : (id rx : ℕ) → id < n → In rx (entry id).subscribers → source rx ≡ id
  pub receivers : (id : ℕ) → id < n → Inv (λ rx. source rx ≡ id) (entry id) c

-- What others do to the channels leaves a stream's receivers complete.
Inv-frame :
    (Mine Mine' : ℕ → Type 0) (e : StreamEntry) (c c' : Channels)
    → c.next ≤ c'.next
    → ((rx : ℕ)
        → rx < c'.next
        → Mine' rx
        → c'.alive rx ≡ true
        → (rx < c.next) × Mine rx × (c.alive rx ≡ true) × (c'.sent rx ≡ c.sent rx))
    → Inv Mine e c
    → Inv Mine' e c'
Inv-frame Mine Mine' e c c' le old v = record {
  below = λ rx h. omega (arith, v.below rx h);
  distinct = v.distinct;
  received = λ rx mine lt a.
      let (lt', mine', a', same) = old rx lt mine a in same ∙ v.received rx mine' lt' a';
  listed = λ rx mine lt a on.
      let (lt', mine', a', same) = old rx lt mine a in v.listed rx mine' lt' a' on;
}

In-subscribe :
    (e : StreamEntry) (c : Channels) (rx : ℕ)
    → In rx (subscribe e c).0.subscribers
    → (rx ≡ c.next) ⊎ In rx e.subscribers
unfolding subscribe
In-subscribe e c rx h = elim (Bool-cases e.done) [
  | inl over ↦ inr (rw over at h)
  | inr on ↦ In-snoc e.subscribers c.next rx (rw on at h)
]

In-publish :
    (item : StreamItem) (e : StreamEntry) (c : Channels) (rx : ℕ)
    → In rx (publish item e c).0.subscribers
    → In rx e.subscribers
unfolding publish
In-publish item e c rx h = elim (Bool-cases e.done) [
  | inl over ↦ rw over at h
  | inr on ↦ elim (Bool-cases (is_terminal_item item)) [
    | inl last ↦ absurd (rw (on, last) at h)
    | inr more ↦ In-retain item e.subscribers c rx (rw (on, more) at h)
  ]
]

-- A publication is seen by the subscribers of its entry alone.
publish_elsewhere :
    (item : StreamItem) (e : StreamEntry) (c : Channels)
    → ((publish item e c).1.next ≡ c.next)
      × ((publish item e c).1.alive ≡ c.alive)
      × ((rx : ℕ) → ¬ In rx e.subscribers → (publish item e c).1.sent rx ≡ c.sent rx)
unfolding publish
publish_elsewhere item e c = elim (Bool-cases e.done) [
  | inl over ↦ simp over (refl, refl, λ rx out. refl)
  | inr on ↦
      let (n, a) = retain-parts item e.subscribers c in
      simp on (n, a, λ rx out. sent-retain_other item e.subscribers c rx out)
]

module _ (n : ℕ) (entry : ℕ → StreamEntry) (c : Channels) (source : ℕ → ℕ)
    (d : Delivery n entry c source) where
  open d use {sources, members, receivers}

  pub hang_up-Delivery : (rx : ℕ) → Delivery n entry (hang_up rx c) source
  unfolding hang_up
  hang_up-Delivery rx = record {
    sources = sources;
    members = members;
    receivers = λ id lt. hang_up-Inv (λ r. source r ≡ id) (entry id) c (receivers id lt) rx;
  }

  -- A new entry, which no channel has as its source.
  pub make_entry-Delivery : Delivery (suc n) (update entry n new_entry) c source
  make_entry-Delivery = record {
    sources = λ rx lt. omega (arith, sources rx lt);
    members = λ id rx lt.
        update_all entry n new_entry (λ k (e : StreamEntry). In rx e.subscribers → source rx ≡ k) id
          (λ same h. absurd h) (λ other. members id rx (omega arith));
    receivers = λ id lt.
        update_all entry n new_entry (λ k e. Inv (λ rx. source rx ≡ k) e c) id
          (λ same. record {
            below = λ rx h. absurd h;
            distinct = tt;
            received = λ rx mine lt' a. absurd (omega (arith, sources rx lt'));
            listed = λ rx mine lt' a on. absurd (omega (arith, sources rx lt'));
          })
          (λ other. receivers id (omega arith));
  }

  -- A publication on an entry.
  module _ (id : ℕ) (lt : id < n) (item : StreamItem) where
    others_receivers :
        (k : ℕ) → k < n → id ≢ k → Inv (λ rx. source rx ≡ k) (entry k) (publish item (entry id) c).1
    others_receivers k k_lt other =
        let (same_next, same_alive, elsewhere) = publish_elsewhere item (entry id) c in
        Inv-frame (λ rx. source rx ≡ k) (λ rx. source rx ≡ k) (entry k) c
          (publish item (entry id) c).1 (omega arith)
          (λ rx rx_lt mine a. (
            omega arith,
            mine,
            sym (ap (λ (f : ℕ → Bool). f rx) same_alive) ∙ a,
            elsewhere rx (λ h. other (sym (members id rx lt h) ∙ mine)),
          ))
          (receivers k k_lt)

    pub publish-Delivery :
        Delivery n
          (update entry id (publish item (entry id) c).0)
          (publish item (entry id) c).1
          source
    publish-Delivery = record {
      sources = λ rx rx_lt. sources rx (omega (arith, (publish_elsewhere item (entry id) c).0));
      members = λ k rx k_lt.
          update_all entry id (publish item (entry id) c).0
            (λ j (e : StreamEntry). In rx e.subscribers → source rx ≡ j) k
            (λ same h. members id rx lt (In-publish item (entry id) c rx h))
            (λ other. members k rx k_lt);
      receivers = λ k k_lt.
          update_all entry id (publish item (entry id) c).0
            (λ j e. Inv (λ rx. source rx ≡ j) e (publish item (entry id) c).1) k
            (λ same. publish-Inv (λ rx. source rx ≡ id) (entry id) c (receivers id lt) item)
            (others_receivers k k_lt);
    }

  -- A subscription to an entry.
  module _ (id : ℕ) (lt : id < n) where
    source' : ℕ → ℕ
    source' = update source c.next id

    opened : (subscribe (entry id) c).1 ≡ open_channel c (entry id).history
    unfolding subscribe
    opened = refl

    old_source : (rx : ℕ) → rx < c.next → source' rx ≡ source rx
    unfolding source'
    old_source rx rx_lt = update_ne source c.next id rx (omega arith)

    before_subscribe : Inv (λ rx. source' rx ≡ id) (entry id) c
    before_subscribe =
        Inv-frame (λ rx. source rx ≡ id) (λ rx. source' rx ≡ id) (entry id) c c (omega arith)
          (λ rx rx_lt mine a. (rx_lt, sym (old_source rx rx_lt) ∙ mine, a, refl)) (receivers id lt)

    new_source : source' c.next ≡ id
    unfolding source'
    new_source = update_self source c.next id

    opened_before :
        (rx : ℕ)
        → c.next ≢ rx
        → rx < (open_channel c (entry id).history).next
        → (rx < c.next)
          × ((open_channel c (entry id).history).alive rx ≡ c.alive rx)
          × ((open_channel c (entry id).history).sent rx ≡ c.sent rx)
    unfolding open_channel
    opened_before rx ne rx_lt = (
      omega arith,
      update_ne c.alive c.next true rx ne,
      update_ne c.sent c.next (entry id).history rx ne,
    )

    new_lt : (rx : ℕ) → rx < (subscribe (entry id) c).1.next → rx < c.next + 1
    unfolding subscribe open_channel
    new_lt rx rx_lt = omega arith

    others_kept :
        (k : ℕ) → k < n → id ≢ k → Inv (λ rx. source' rx ≡ k) (entry k) (subscribe (entry id) c).1
    unfolding open_channel
    others_kept k k_lt other = rw opened (
        Inv-frame (λ rx. source rx ≡ k) (λ rx. source' rx ≡ k) (entry k) c
          (open_channel c (entry id).history) (omega arith)
          (λ rx rx_lt mine a.
            let (before, alive, sent) =
              opened_before rx (λ e. other (sym new_source ∙ ap source' e ∙ mine)) rx_lt in
            (before, sym (old_source rx before) ∙ mine, sym alive ∙ a, sent))
          (receivers k k_lt))

    subscribed_member : (rx : ℕ) → In rx (subscribe (entry id) c).0.subscribers → source' rx ≡ id
    subscribed_member rx h = elim (In-subscribe (entry id) c rx h) [
      | inl new ↦ ap source' new ∙ new_source
      | inr old ↦ old_source rx ((receivers id lt).below rx old) ∙ members id rx lt old
    ]

    pub subscribe-Delivery :
        Delivery n
          (update entry id (subscribe (entry id) c).0)
          (subscribe (entry id) c).1
          (update source c.next id)
    unfolding source'
    subscribe-Delivery = record {
      sources = λ rx rx_lt.
          update_all source c.next id (λ j k. j < c.next + 1 → k < n) rx (λ same h. lt)
            (λ other h. sources rx (omega arith)) (new_lt rx rx_lt);
      members = λ k rx k_lt.
          update_all entry id (subscribe (entry id) c).0
            (λ j (e : StreamEntry). In rx e.subscribers → source' rx ≡ j) k
            (λ same. subscribed_member rx)
            (λ other h. old_source rx ((receivers k k_lt).below rx h) ∙ members k rx k_lt h);
      receivers = λ k k_lt.
          update_all entry id (subscribe (entry id) c).0
            (λ j e. Inv (λ rx. source' rx ≡ j) e (subscribe (entry id) c).1) k
            (λ same. subscribe-Inv (λ rx. source' rx ≡ id) (entry id) c before_subscribe)
            (others_kept k k_lt);
    }
