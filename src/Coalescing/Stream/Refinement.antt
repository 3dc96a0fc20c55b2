-- ===== src/Coalescing/Stream/Refinement.antt =====
-- Where nothing comes between the locks, src/coalescing.rs is the map of entries of `Streams`.
mod Calls
pub mod Sequence
mod Tests
use rust_llm_inference_gatew.Prelude.{
  update, update_ne, update_self, ℕ, suc, ◌+◌, Bool, true, false, Option, none, some, List, [], ◌∷◌,
  ◌++◌, ◌≡◌, ◌≢◌, ◌<◌, refl, sym, ap, subst, ◌∙◌, arith, if◌then◌else◌, Bool-cases, Option-cases,
  inl, inr, ◌⊎◌,
}
use rust_llm_inference_gatew.Text.{Text, text_eq, text_eq_iff, ne_of_text_eq}
use rust_llm_inference_gatew.HashMap.{
  HashMap, get, insert, remove, empty, get-empty, get-insert, get-insert_self, get-insert_ne,
  get-remove, get-remove_self, get-remove_ne,
}
use rust_llm_inference_gatew.Coalescing.Stream.{
  StreamItem, StreamEntry, Channels, Streams, new_entry, subscribe, publish, hang_up, entry_or_new,
  join_or_create_stream, publish_entry, publish_stream_item,
}
use rust_llm_inference_gatew.Coalescing.Stream.Shared.{
  Shared, look_up, look_up_result, attach, find_entry, push_item, remove_entry,
}

-- The calls from end to end.
pub join_call : Shared → Text → Shared × ℕ × Bool
join_call s key =
    let (found, id, is_leader) = look_up s key in
    let (after, rx) = attach found id in (after, rx, is_leader)

publish_found : Shared → Text → StreamItem → Option ℕ → Shared
publish_found s key item none = s
publish_found s key item (some id) =
    let (pushed, should_remove) = push_item s id item in
    if should_remove then remove_entry pushed key else pushed

pub publish_call : Shared → Text → StreamItem → Shared
unfolding publish_found
publish_call s key item = publish_found s key item (find_entry s key)

-- What a reference in the map points to.
abbrev pub entry_of : (ℕ → StreamEntry) → Option ℕ → Option StreamEntry
entry_of entry none = none
entry_of entry (some id) = some (entry id)

-- The map holds what its references point to; they are below the next one, and no two keys share
-- one.
pub record Represents (sh : Shared) (m : HashMap StreamEntry) : Type 0 where
  pub entries : (k : Text) → get m k ≡ entry_of sh.entry (get sh.stream_inflight k)
  pub made : (k : Text) (id : ℕ) → get sh.stream_inflight k ≡ some id → id < sh.next_entry
  pub apart :
      (j k : Text) (id : ℕ)
      → get sh.stream_inflight j ≡ some id
      → get sh.stream_inflight k ≡ some id
      → j ≡ k

-- The streams of a map, beside the channels.
abbrev pub streams : HashMap StreamEntry → Channels → Streams
streams m c = record { stream_inflight = m; channels = c }

-- A lookup where one key has another value.
get_at {ℓ} :
    {V : Type ℓ} (m m' : HashMap V) (key : Text) (o : Option V) (P : Text → Option V → Type ℓ)
    → ((k : Text) → get m' k ≡ (if text_eq key k then o else get m k))
    → P key o
    → ((k : Text) → key ≢ k → P k (get m k))
    → (k : Text) → P k (get m' k)
get_at m m' key o P law here there k = elim (Bool-cases (text_eq key k)) [
  | inl same ↦
      let e : key ≡ k = (text_eq_iff key k).0 same in
      subst (P k) (sym (law k ∙ ap (λ (b : Bool). if b then o else get m k) same))
        (subst (λ j. P j o) e here)
  | inr other ↦
      subst (P k) (sym (law k ∙ ap (λ (b : Bool). if b then o else get m k) other))
        (there k (ne_of_text_eq key k other))
]

module _ (sh : Shared) (m : HashMap StreamEntry) (v : Represents sh m) (key : Text) where
  open v use {entries, made, apart}

  kept_entry :
      (id : ℕ) (e : StreamEntry)
      → get sh.stream_inflight key ≡ some id
      → (k : Text) → key ≢ k
      → (o : Option ℕ) → get sh.stream_inflight k ≡ o
      → entry_of sh.entry o ≡ entry_of (update sh.entry id e) o
  kept_entry id e held k ne none at = refl
  kept_entry id e held k ne (some j) at =
      ap some
        (sym (update_ne sh.entry id e j (λ same. ne (apart key k j (held ∙ ap some same) at))))

  -- The entry that a key leads to is replaced.
  replaced :
      (id : ℕ) (e : StreamEntry) (c : Channels)
      → get sh.stream_inflight key ≡ some id
      → Represents (record sh { entry = update sh.entry id e; channels = c }) (insert m key e)
  replaced id e c held = record {
    entries =
        get_at m (insert m key e) key (some e)
          (λ k o. o ≡ entry_of (update sh.entry id e) (get sh.stream_inflight k))
          (λ k. get-insert m key k e)
          (ap some (sym (update_self sh.entry id e))
            ∙ ap (entry_of (update sh.entry id e)) (sym held))
          (λ k ne. entries k ∙ kept_entry id e held k ne (get sh.stream_inflight k) refl);
    made = made;
    apart = apart;
  }

  -- A new entry under a free key.
  module _ (e : StreamEntry) (c : Channels) (free : get sh.stream_inflight key ≡ none) where
    abbrev made_entry : ℕ → StreamEntry
    made_entry = update (update sh.entry sh.next_entry new_entry) sh.next_entry e

    abbrev made_map : HashMap ℕ
    made_map = insert sh.stream_inflight key sh.next_entry

    old_entry :
        (o : Option ℕ)
        → ((id : ℕ) → o ≡ some id → id < sh.next_entry)
        → entry_of sh.entry o ≡ entry_of made_entry o
    old_entry none below = refl
    old_entry (some id) below =
        let ne : sh.next_entry ≢ id = λ same. absurd (omega (arith, below id refl)) in
        ap some (
          sym (
            update_ne (update sh.entry sh.next_entry new_entry) sh.next_entry e id ne
            ∙ update_ne sh.entry sh.next_entry new_entry id ne))

    -- Whose reference it is.
    owner :
        (k : Text) (id : ℕ)
        → get made_map k ≡ some id
        → ((key ≡ k) × (id ≡ sh.next_entry))
          ⊎ ((get sh.stream_inflight k ≡ some id) × (id < sh.next_entry))
    owner k id =
        get_at sh.stream_inflight made_map key (some sh.next_entry)
          (λ j o.
            o ≡ some id
            → ((key ≡ j) × (id ≡ sh.next_entry))
              ⊎ ((get sh.stream_inflight j ≡ some id) × (id < sh.next_entry)))
          (λ j. get-insert sh.stream_inflight key j sh.next_entry) (λ h. inl (refl, ground arith))
          (λ j ne h. inr (h, made j id h)) k

    made_apart : (j k : Text) (id : ℕ) → get made_map j ≡ some id → get made_map k ≡ some id → j ≡ k
    made_apart j k id a b = elim (owner j id a) [
      | inl (first, new) ↦ elim (owner k id b) [
        | inl (second, again) ↦ sym first ∙ second
        | inr (old, below) ↦ absurd (omega arith)
      ]
      | inr (held, below) ↦ elim (owner k id b) [
        | inl (second, new) ↦ absurd (omega arith)
        | inr (old, under) ↦ apart j k id held old
      ]
    ]

    inserted :
        Represents
          (record sh {
            stream_inflight = made_map;
            next_entry = suc sh.next_entry;
            entry = made_entry;
            channels = c;
          })
          (insert m key e)
    inserted = record {
      entries =
          get_at m (insert m key e) key (some e) (λ k o. o ≡ entry_of made_entry (get made_map k))
            (λ k. get-insert m key k e)
            (ap some (sym (update_self (update sh.entry sh.next_entry new_entry) sh.next_entry e))
              ∙ ap (entry_of made_entry)
                  (sym (get-insert_self sh.stream_inflight key sh.next_entry)))
            (λ k ne.
              entries k
              ∙ old_entry (get sh.stream_inflight k) (made k)
              ∙ ap (entry_of made_entry)
                  (sym (get-insert_ne sh.stream_inflight key k sh.next_entry ne)));
      made = λ k id h. elim (owner k id h) [
        | inl (same, new) ↦ omega arith
        | inr (old, below) ↦ omega arith
      ];
      apart = made_apart;
    }

  -- What is left of the map was there.
  was :
      (k : Text) (id : ℕ)
      → get (remove sh.stream_inflight key) k ≡ some id
      → get sh.stream_inflight k ≡ some id
  was k id =
      get_at sh.stream_inflight (remove sh.stream_inflight key) key none
        (λ j o. o ≡ some id → get sh.stream_inflight j ≡ some id)
        (get-remove sh.stream_inflight key) (λ h. absurd (cc)) (λ j ne h. h) k

  -- The entry that a key leads to is done, and its key is removed.
  removed :
      (id : ℕ) (e : StreamEntry) (c : Channels)
      → get sh.stream_inflight key ≡ some id
      → Represents
          (record sh {
            stream_inflight = remove sh.stream_inflight key;
            entry = update sh.entry id e;
            channels = c;
          })
          (remove m key)
  removed id e c held = record {
    entries =
        get_at m (remove m key) key none
          (λ k o. o ≡ entry_of (update sh.entry id e) (get (remove sh.stream_inflight key) k))
          (get-remove m key)
          (ap (entry_of (update sh.entry id e)) (sym (get-remove_self sh.stream_inflight key)))
          (λ k ne.
            entries k
            ∙ kept_entry id e held k ne (get sh.stream_inflight k) refl
            ∙ ap (entry_of (update sh.entry id e))
                (sym (get-remove_ne sh.stream_inflight key k ne)));
    made = λ k i h. made k i (was k i h);
    apart = λ j k i a b. apart j k i (was j i a) (was k i b);
  }
