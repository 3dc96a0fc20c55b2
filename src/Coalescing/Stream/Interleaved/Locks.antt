-- ===== src/Coalescing/Stream/Interleaved/Locks.antt =====
-- The map of src/coalescing.rs against the leaders: a key stays with its entry until the leader of the
-- entry removes it.
use rust_llm_inference_gatew.Prelude.{
  update, update_all, update_ne, ℕ, suc, Bool, true, false, none, some, ◌≡◌, ◌<◌, refl, sym, ap,
  subst, ◌∙◌, arith, Bool-cases, inl, inr,
}
use rust_llm_inference_gatew.Text.{Text, text_eq, text_eq_iff}
use rust_llm_inference_gatew.HashMap.{
  HashMap, get, insert, remove, get-insert, get-insert_self, get-insert_ne, get-remove,
  get-remove_ne,
}
use rust_llm_inference_gatew.Coalescing.Stream.{}
use rust_llm_inference_gatew.Coalescing.Stream.Interleaved.{
  Phase, joining, waiting, found, removing, stopped,
}

-- The leader has still to call `publish_stream_item` or to return from it.
abbrev pub is_active : Phase → Bool
is_active stopped = false
is_active joining = true
is_active waiting = true
is_active (found item held) = true
is_active removing = true

-- An entry that the leader has found is its own.
abbrev pub Owns : ℕ → Phase → Type 0
Owns id joining = Unit
Owns id waiting = Unit
Owns id (found item held) = held ≡ id
Owns id removing = Unit
Owns id stopped = Unit

pub record Locks (n : ℕ) (m : HashMap ℕ) (phase : ℕ → Phase) (key : ℕ → Text) : Type 0 where
  pub registered :
      (k : Text) (id : ℕ)
      → get m k ≡ some id
      → (id < n) × (key id ≡ k) × (is_active (phase id) ≡ true)
  pub held : (id : ℕ) → id < n → is_active (phase id) ≡ true → get m (key id) ≡ some id
  pub own : (id : ℕ) → id < n → Owns id (phase id)

module _ (n : ℕ) (m : HashMap ℕ) (phase : ℕ → Phase) (key : ℕ → Text)
    (v : Locks n m phase key) where
  open v use {registered, held, own}

  -- A key is held by one active leader at most.
  pub one_holder :
      (i j : ℕ)
      → i < n
      → j < n
      → is_active (phase i) ≡ true
      → is_active (phase j) ≡ true
      → key i ≡ key j
      → i ≡ j
  one_holder i j i_lt j_lt a b same =
      let first : get m (key j) ≡ some i = subst (λ k. get m k ≡ some i) same (held i i_lt a) in
      let second = held j j_lt b in cc

  -- An active leader goes on.
  pub phase-Locks :
      (id : ℕ) (p : Phase)
      → id < n
      → is_active (phase id) ≡ true
      → is_active p ≡ true
      → Owns id p
      → Locks n m (update phase id p) key
  phase-Locks id p lt active active' owns = record {
    registered = λ k i h.
        let (i_lt, same, a) = registered k i h in
        (i_lt, same, update_all phase id p (λ _ q. is_active q ≡ true) i (λ _. active') (λ _. a));
    held = λ i i_lt.
        update_all phase id p (λ j q. is_active q ≡ true → get m (key j) ≡ some j) i
          (λ same a. held id lt active) (λ other. held i i_lt);
    own = λ i i_lt. update_all phase id p Owns i (λ same. owns) (λ other. own i i_lt);
  }

  -- A caller makes an entry under a free key.
  module _ (k : Text) (free : get m k ≡ none) where
    made_registered :
        (j : Text) (id : ℕ)
        → get (insert m k n) j ≡ some id
        → (id < suc n) × (update key n k id ≡ j) × (is_active (update phase n joining id) ≡ true)
    made_registered j id h = elim (Bool-cases (text_eq k j)) [
      | inl same ↦
          let at : n ≡ id = ground (arith, get-insert m k j n) in
          (
            omega arith,
            update_all key n k (λ _ q. q ≡ j) id (λ _. (text_eq_iff k j).0 same)
                (λ other. absurd (other at)),
            update_all phase n joining (λ _ q. is_active q ≡ true) id (λ _. refl)
                (λ other. absurd (other at)),
          )
      | inr other ↦
          let (lt, keyed, a) = registered j id (ground (arith, get-insert m k j n)) in
          (
            omega arith,
            ground arith,
            update_all phase n joining (λ _ q. is_active q ≡ true) id (λ _. refl) (λ _. a),
          )
    ]

    made_held :
        (id : ℕ)
        → id < suc n
        → is_active (update phase n joining id) ≡ true
        → get (insert m k n) (update key n k id) ≡ some id
    made_held id lt a =
        update_all key n k (λ i q. get (insert m k n) q ≡ some i) id (λ same. get-insert_self m k n)
          (λ other.
            let a' : is_active (phase id) ≡ true =
              ap is_active (sym (update_ne phase n joining id other)) ∙ a in
            let old = held id (omega arith) a' in
            get-insert_ne m k (key id) n (λ e.
              absurd
                (let taken : get m k ≡ some id = subst (λ x. get m x ≡ some id) (sym e) old in cc))
            ∙ old)

    pub make_entry-Locks : Locks (suc n) (insert m k n) (update phase n joining) (update key n k)
    make_entry-Locks = record {
      registered = made_registered;
      held = made_held;
      own = λ i i_lt. update_all phase n joining Owns i (λ _. tt) (λ other. own i (omega arith));
    }

  -- The leader of `id` removes its key.
  module _ (id : ℕ) (lt : id < n) (active : is_active (phase id) ≡ true) where
    left_registered :
        (k : Text) (i : ℕ)
        → get (remove m (key id)) k ≡ some i
        → (i < n) × (key i ≡ k) × (is_active (update phase id stopped i) ≡ true)
    left_registered k i h =
        let old : get m k ≡ some i = ground (arith, get-remove m (key id) k) in
        let (i_lt, same, a) = registered k i old in
        (
          i_lt,
          same,
          update_all phase id stopped (λ _ q. is_active q ≡ true) i
              (λ e. absurd (ground (arith, get-remove m (key id) k, text_eq_iff (key id) k)))
              (λ _. a),
        )

    left_held :
        (i : ℕ)
        → i < n
        → is_active (update phase id stopped i) ≡ true
        → get (remove m (key id)) (key i) ≡ some i
    left_held i i_lt =
        update_all phase id stopped
          (λ j q. is_active q ≡ true → get (remove m (key id)) (key j) ≡ some j) i
          (λ same a. absurd (cc))
          (λ other a.
            get-remove_ne m (key id) (key i) (λ e. other (one_holder id i lt i_lt active a e))
            ∙ held i i_lt a)

    pub remove-Locks : Locks n (remove m (key id)) (update phase id stopped) key
    remove-Locks = record {
      registered = left_registered;
      held = left_held;
      own = λ i i_lt. update_all phase id stopped Owns i (λ _. tt) (λ other. own i i_lt);
    }
