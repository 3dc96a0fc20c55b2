-- ===== src/Coalescing/Stream/Retain.antt =====
-- Sending an item to the subscribers of a stream of src/coalescing.rs.
use rust_llm_inference_gatew.Prelude.{
  update, ℕ, Bool, true, false, List, [], ◌∷◌, ◌++◌, ◌≡◌, ◌≢◌, refl, sym, ap, ◌∙◌, subst, arith, In,
  inl, inr, ◌⊎◌, Bool-cases, if◌then◌else◌,
}
use rust_llm_inference_gatew.Coalescing.Stream.{StreamItem, Channels, retain}

abbrev pub Distinct : List ℕ → Type 0
Distinct [] = Unit
Distinct (x ∷ xs) = (¬ In x xs) × Distinct xs

abbrev after_send : Channels → ℕ → StreamItem → Channels
after_send c s item =
    if c.alive s then record c { sent = update c.sent s (c.sent s ++ item ∷ []) } else c

after_send-parts :
    (c : Channels) (s : ℕ) (item : StreamItem)
    → ((after_send c s item).next ≡ c.next) × ((after_send c s item).alive ≡ c.alive)
after_send-parts c s item = elim (Bool-cases (c.alive s)) [
  | inl here ↦ rw here (refl, refl)
  | inr gone ↦ rw gone (refl, refl)
]

pub retain-parts :
    (item : StreamItem) (ss : List ℕ) (c : Channels)
    → ((retain item ss c).1.next ≡ c.next) × ((retain item ss c).1.alive ≡ c.alive)
unfolding retain
retain-parts item [] c = (refl, refl)
retain-parts item (s ∷ ss) c =
    let (n, a) = retain-parts item ss (after_send c s item) in
    let (n', a') = after_send-parts c s item in (n ∙ n', a ∙ a')

In-keep :
    (b : Bool) (rx s : ℕ) (kept : List ℕ)
    → In rx (if b then s ∷ kept else kept)
    → (rx ≡ s) ⊎ In rx kept
In-keep true rx s kept h = h
In-keep false rx s kept h = inr h

pub In-retain :
    (item : StreamItem) (ss : List ℕ) (c : Channels) (rx : ℕ)
    → In rx (retain item ss c).0
    → In rx ss
unfolding retain
In-retain item [] c rx h = h
In-retain item (s ∷ ss) c rx h =
    elim (In-keep (c.alive s) rx s (retain item ss (after_send c s item)).0 h) [
      | inl e ↦ inl e
      | inr r ↦ inr (In-retain item ss (after_send c s item) rx r)
    ]

Distinct-keep :
    (b : Bool) (s : ℕ) (kept : List ℕ)
    → ¬ In s kept
    → Distinct kept
    → Distinct (if b then s ∷ kept else kept)
Distinct-keep true s kept n d = (n, d)
Distinct-keep false s kept n d = d

pub Distinct-retain :
    (item : StreamItem) (ss : List ℕ) (c : Channels) → Distinct ss → Distinct (retain item ss c).0
unfolding retain
Distinct-retain item [] c d = d
Distinct-retain item (s ∷ ss) c d =
    Distinct-keep (c.alive s) s (retain item ss (after_send c s item)).0
      (λ h. d.0 (In-retain item ss (after_send c s item) s h))
      (Distinct-retain item ss (after_send c s item) d.1)

-- A live subscriber is kept.
pub retain-keeps :
    (item : StreamItem) (ss : List ℕ) (c : Channels) (rx : ℕ)
    → c.alive rx ≡ true
    → In rx ss
    → In rx (retain item ss c).0
unfolding retain
retain-keeps item [] c rx a h = h
retain-keeps item (s ∷ ss) c rx a (inl e) =
    subst
      (λ b. In rx (
        if b
        then s ∷ (retain item ss (after_send c s item)).0
        else (retain item ss (after_send c s item)).0))
      (sym a ∙ ap c.alive e) (inl e)
retain-keeps item (s ∷ ss) c rx a (inr r) = keep_tail (c.alive s) _ (
    retain-keeps item ss (after_send c s item) rx
      (ap (λ (f : ℕ → Bool). f rx) (after_send-parts c s item).1 ∙ a) r)
  where
    keep_tail : (b : Bool) (kept : List ℕ) → In rx kept → In rx (if b then s ∷ kept else kept)
    keep_tail true kept h = inr h
    keep_tail false kept h = h

after_send_other :
    (c : Channels) (s rx : ℕ) (item : StreamItem)
    → s ≢ rx
    → (after_send c s item).sent rx ≡ c.sent rx
after_send_other c s rx item n = ground arith

after_send_self :
    (c : Channels) (s : ℕ) (item : StreamItem)
    → c.alive s ≡ true
    → (after_send c s item).sent s ≡ c.sent s ++ item ∷ []
after_send_self c s item a = ground arith

pub sent-retain_other :
    (item : StreamItem) (ss : List ℕ) (c : Channels) (rx : ℕ)
    → ¬ In rx ss
    → (retain item ss c).1.sent rx ≡ c.sent rx
unfolding retain
sent-retain_other item [] c rx n = refl
sent-retain_other item (s ∷ ss) c rx n =
    sent-retain_other item ss (after_send c s item) rx (λ h. n (inr h))
    ∙ after_send_other c s rx item (λ e. n (inl (sym e)))

-- A live subscriber is sent the item once.
pub sent-retain :
    (item : StreamItem) (ss : List ℕ) (c : Channels) (rx : ℕ)
    → Distinct ss
    → c.alive rx ≡ true
    → In rx ss
    → (retain item ss c).1.sent rx ≡ c.sent rx ++ item ∷ []
unfolding retain
sent-retain item [] c rx d a h = absurd h
sent-retain item (s ∷ ss) c rx d a (inl e) =
    sent-retain_other item ss (after_send c s item) rx (subst (λ x. ¬ In x ss) (sym e) d.0)
    ∙ subst (λ x. (after_send c x item).sent rx ≡ c.sent rx ++ item ∷ []) e
        (after_send_self c rx item a)
sent-retain item (s ∷ ss) c rx d a (inr r) =
    sent-retain item ss (after_send c s item) rx d.1
      (ap (λ (f : ℕ → Bool). f rx) (after_send-parts c s item).1 ∙ a) r
    ∙ ap (λ (xs : List StreamItem). xs ++ item ∷ [])
        (after_send_other c s rx item (λ e. d.0 (subst (λ x. In x ss) (sym e) r)))
