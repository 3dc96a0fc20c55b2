-- ===== src/Coalescing/Stream/Receivers.antt =====
-- Every live receiver of a stream of src/coalescing.rs holds the history of its entry.
use rust_llm_inference_gatew.Prelude.{
  ℕ, ◌+◌, Bool, true, false, List, [], ◌∷◌, ◌++◌, ◌≡◌, ◌<◌, sym, ap, ◌∙◌, arith, In, In-append_left,
  In-append_right, inl, inr, ◌⊎◌, Bool-cases, if◌then◌else◌, ℕ_discrete,
}
use rust_llm_inference_gatew.Coalescing.Stream.{
  StreamItem, StreamEntry, Channels, is_terminal_item, subscribe, open_channel, publish, retain,
  hang_up,
}
use rust_llm_inference_gatew.Coalescing.Stream.Retain.{
  Distinct, retain-parts, In-retain, Distinct-retain, retain-keeps, sent-retain,
}

-- The receivers of this stream are the channels in `Mine`.
pub record Inv (Mine : ℕ → Type 0) (e : StreamEntry) (c : Channels) : Type 0 where
  pub below : (rx : ℕ) → In rx e.subscribers → rx < c.next
  pub distinct : Distinct e.subscribers
  pub received : (rx : ℕ) → Mine rx → rx < c.next → c.alive rx ≡ true → c.sent rx ≡ e.history
  pub listed :
      (rx : ℕ) → Mine rx → rx < c.next → c.alive rx ≡ true → e.done ≡ false → In rx e.subscribers

pub In-snoc : (ys : List ℕ) (x y : ℕ) → In y (ys ++ x ∷ []) → (y ≡ x) ⊎ In y ys
In-snoc [] x y (inl e) = inl e
In-snoc [] x y (inr h) = absurd h
In-snoc (z ∷ zs) x y (inl e) = inr (inl e)
In-snoc (z ∷ zs) x y (inr h) = elim (In-snoc zs x y h) [ inl e ↦ inl e | inr r ↦ inr (inr r) ]

Distinct-append : (xs : List ℕ) (x : ℕ) → ¬ In x xs → Distinct xs → Distinct (xs ++ x ∷ [])
Distinct-append [] x n d = ((λ h. h), tt)
Distinct-append (y ∷ ys) x n d = (
  (λ h. elim (In-snoc ys x y h) [ inl e ↦ n (inl (sym e)) | inr r ↦ d.0 r ]),
  Distinct-append ys x (λ h. n (inr h)) d.1,
)

module _ (Mine : ℕ → Type 0) (e : StreamEntry) (c : Channels) (v : Inv Mine e c) where
  open v use {below, distinct, received, listed}

  not_next : ¬ In c.next e.subscribers
  not_next h = absurd (omega (arith, below c.next h))

  opened_received :
      (rx : ℕ)
      → Mine rx
      → rx < c.next + 1
      → (open_channel c e.history).alive rx ≡ true
      → (open_channel c e.history).sent rx ≡ e.history
  unfolding open_channel
  opened_received rx le lt a = elim (ℕ_discrete c.next rx) [
    | yes same ↦ ground arith
    | no other ↦ ground (arith, received rx le (omega arith))
  ]

  opened_listed :
      (rx : ℕ)
      → Mine rx
      → rx < c.next + 1
      → (open_channel c e.history).alive rx ≡ true
      → e.done ≡ false
      → In rx (e.subscribers ++ c.next ∷ [])
  unfolding open_channel
  opened_listed rx le lt a open_ = elim (ℕ_discrete c.next rx) [
    | yes same ↦ In-append_right rx e.subscribers (c.next ∷ []) (inl (sym same))
    | no other ↦
        In-append_left rx e.subscribers (c.next ∷ [])
          (listed rx le (omega arith) (ground arith) open_)
  ]

  pub subscribe-Inv : Inv Mine (subscribe e c).0 (subscribe e c).1
  unfolding subscribe
  subscribe-Inv = elim (Bool-cases e.done) [
    | inl over ↦ simp over (record {
      below = λ rx h. omega (arith, below rx h);
      distinct = distinct;
      received = λ rx le lt a. opened_received rx le (omega arith) a;
      listed = λ rx le lt a open_. absurd (cc);
    })
    | inr on ↦ simp on (record {
      below = λ rx h. elim (In-snoc e.subscribers c.next rx h) [
        | inl same ↦ omega arith
        | inr old ↦ omega (arith, below rx old)
      ];
      distinct = Distinct-append e.subscribers c.next not_next distinct;
      received = λ rx le lt a. opened_received rx le (omega arith) a;
      listed = λ rx le lt a open_. opened_listed rx le (omega arith) a on;
    })
  ]

  pub hang_up-Inv : (rx : ℕ) → Inv Mine e (hang_up rx c)
  unfolding hang_up
  hang_up-Inv rx = record {
    below = below;
    distinct = distinct;
    received = λ r le lt a. received r le lt (ground arith);
    listed = λ r le lt a open_. listed r le lt (ground arith) open_;
  }

  abbrev sent_to : StreamItem → List ℕ × Channels
  sent_to item = retain item e.subscribers c

  published_subscribers : StreamItem → List ℕ
  published_subscribers item = if is_terminal_item item then [] else (sent_to item).0

  published_entry : StreamItem → StreamEntry
  unfolding published_subscribers
  published_entry item = record {
    history = e.history ++ item ∷ [];
    subscribers = published_subscribers item;
    done = is_terminal_item item;
  }

  In-published :
      (item : StreamItem) (rx : ℕ) → In rx (published_subscribers item) → In rx (sent_to item).0
  unfolding published_subscribers
  In-published item rx h = elim (Bool-cases (is_terminal_item item)) [
    | inl last ↦ absurd (rw last at h)
    | inr more ↦ rw more at h
  ]

  Distinct-published : (item : StreamItem) → Distinct (published_subscribers item)
  unfolding published_subscribers
  Distinct-published item = elim (Bool-cases (is_terminal_item item)) [
    | inl last ↦ rw last tt
    | inr more ↦ rw more (Distinct-retain item e.subscribers c distinct)
  ]

  -- The receivers of the channels after a send are those before it.
  earlier :
      (item : StreamItem) (rx : ℕ)
      → rx < (sent_to item).1.next
      → (sent_to item).1.alive rx ≡ true
      → (rx < c.next) × (c.alive rx ≡ true)
  earlier item rx lt a =
      let (n, same) = retain-parts item e.subscribers c in
      (omega (arith, n), sym (ap (λ (f : ℕ → Bool). f rx) same) ∙ a)

  published-Inv :
      (item : StreamItem) → e.done ≡ false → Inv Mine (published_entry item) (sent_to item).1
  unfolding published_entry
  published-Inv item on = record {
    below = λ rx h. omega (
      arith,
      below rx (In-retain item e.subscribers c rx (In-published item rx h)),
      (retain-parts item e.subscribers c).0,
    );
    distinct = Distinct-published item;
    received = λ rx le lt a.
        let (lt', a') = earlier item rx lt a in
        sent-retain item e.subscribers c rx distinct a' (listed rx le lt' a' on)
        ∙ ap (λ (xs : List StreamItem). xs ++ item ∷ []) (received rx le lt' a');
    listed = λ rx le lt a more.
        let (lt', a') = earlier item rx lt a in
        rw more (retain-keeps item e.subscribers c rx a' (listed rx le lt' a' on));
  }

  pub publish-Inv : (item : StreamItem) → Inv Mine (publish item e c).0 (publish item e c).1
  unfolding publish published_entry
  publish-Inv item = elim (Bool-cases e.done) [
    | inl over ↦ simp over v
    | inr on ↦ simp on (published-Inv item on)
  ]
